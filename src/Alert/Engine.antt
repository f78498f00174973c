-- ===== src/Alert/Engine.antt =====
-- internal/alert/engine.go: the incident state machine (`step`, `raise`) and the gating pipeline
-- (`deliver`). Times are nanoseconds; `minute_of_day` gives the local wall clock, which the time
-- zone database decides.
use hoptrail.Common.{
  ℕ, ◌+◌, ◌*◌, ◌/◌, Bool, true, false, not, ◌&&◌, ◌||◌, Option, none, some, List, [], ◌∷◌, ◌++◌,
  length, ltb, leb, ◌==◌, if◌then◌else◌,
}
use hoptrail.Common.Float.{Float}
use hoptrail.Common.Text.{Text, codes, is_blank}
use hoptrail.Alert.Config.{
  Config, EventType, probe_offline, target_loss, latency, derate, capacity, parse_hhmm,
}
use hoptrail.Alert.Store.{
  Phase, raising, active, Key, same_key, AlertState, alert, recovered, SummaryEntry, Store, Faults,
  find_state, put_state, upsert_alert_state, delete_alert_state, append_alert_history,
  enqueue_alert,
}

abbrev pub second : ℕ
second = 1_000_000_000

abbrev pub hour : ℕ
hour = 3600 * second

-- `t.UnixMilli()`
abbrev pub unix_milli : ℕ → ℕ
unix_milli t = t / 1_000_000

-- `time.UnixMilli(ms)`
abbrev pub from_milli : ℕ → ℕ
from_milli ms = ms * 1_000_000

abbrev pub event_name : EventType → Text
event_name probe_offline = codes "probe_offline"
event_name target_loss = codes "target_loss"
event_name latency = codes "latency"
event_name derate = codes "derate"
event_name capacity = codes "capacity"

-- Whether the minute `cur` of the day lies in the window from `s` to `e`.
unfoldable pub in_minutes : ℕ → ℕ → ℕ → Bool
in_minutes cur s e =
    if s == e then false else if ltb s e then leb s cur && ltb cur e else leb s cur || ltb cur e

abbrev pub in_parsed : ℕ → Option (ℕ × ℕ) → Option (ℕ × ℕ) → Bool
in_parsed cur (some (sh, sm)) (some (eh, em)) = in_minutes cur (sh * 60 + sm) (eh * 60 + em)
in_parsed cur (some a) none = false
in_parsed cur none b = false

unfoldable pub in_quiet_window : ℕ → Text → Text → Bool
in_quiet_window cur start end =
    if is_blank start || is_blank end
    then false
    else in_parsed cur (parse_hhmm start) (parse_hhmm end)

unfoldable pub sanitize_latin1 : Text → Text
sanitize_latin1 [] = []
sanitize_latin1 (r ∷ rs) = (if ltb 0xff r then b'?' else r) ∷ sanitize_latin1 rs

-- The engine's memory, with the store that it writes to.
pub record Engine : Type 0 where
  pub db : Store
  pub last_raised : List (Key × ℕ)
  pub sent : List ℕ

unfoldable pub lookup_raised : Key → List (Key × ℕ) → Option ℕ
lookup_raised k [] = none
lookup_raised k ((j, t) ∷ m) = let rest = lookup_raised k m in if same_key j k then some t else rest

unfoldable pub set_raised : Key → ℕ → List (Key × ℕ) → List (Key × ℕ)
set_raised k t [] = (k, t) ∷ []
set_raised k t ((j, u) ∷ m) =
    let rest = set_raised k t m in if same_key j k then (k, t) ∷ m else (j, u) ∷ rest

unfoldable pub drop_raised : Key → List (Key × ℕ) → List (Key × ℕ)
drop_raised k [] = []
drop_raised k ((j, t) ∷ m) =
    let rest = drop_raised k m in if same_key j k then rest else (j, t) ∷ rest

-- The sent times within the last hour: `t.After(now.Add(-time.Hour))`.
unfoldable pub recent : ℕ → List ℕ → List ℕ
recent now [] = []
recent now (t ∷ ts) = let rest = recent now ts in if ltb now (t + hour) then t ∷ rest else rest

-- An unreadable summary counts as empty.
unfoldable pub append_summary : Faults → Store → SummaryEntry → Store × Bool
append_summary f db entry =
    let entries = if f.summary_read then [] else db.summary in
    if f.summary_write then (db, false) else (record db { summary = entries ++ entry ∷ [] }, true)

abbrev pub is_active : Phase → Bool
is_active active = true
is_active raising = false

abbrev pub was_notified : AlertState → Bool
was_notified st = is_active st.state && elim st.notified_at [ none ↦ false | some t ↦ true ]

module _ (fl : Float) (minute_of_day : ℕ → ℕ) (cfg : Config fl) (f : Faults) (now : ℕ) where
  abbrev pub quiet : Bool
  quiet = in_quiet_window (minute_of_day now) cfg.quiet_start cfg.quiet_end

  -- The queueing of one notification, past the gates.
  unfoldable pub enqueue : Engine → Key → Text → Text → Bool → Engine × Bool
  enqueue e k msg priority recovery =
      let (db, ok) = enqueue_alert f e.db record {
        created_at = unix_milli now;
        title = sanitize_latin1 (
            if recovery
            then codes "hoptrail: recovered"
            else codes "hoptrail: " ++ event_name k.event);
        body = msg;
        priority = if recovery then codes "default" else priority;
      } in
      (record e { db = db }, ok)

  -- Quiet hours and the rate limit, for an event that the history has recorded.
  unfoldable pub gate : Engine → Key → Text → Text → Bool → Engine × Bool
  gate e k msg priority recovery =
      if quiet
      then (let (db, ok) =
            append_summary f e.db
              record { ts = unix_milli now; key = k; msg = msg; recovery = recovery } in
          (record e { db = db }, ok))
      else if recovery
      then enqueue e k msg priority recovery
      else (let kept = recent now e.sent in
          if leb cfg.rate_limit_per_h (length kept)
          then (record e { sent = kept }, false)
          else enqueue (record e { sent = kept ++ now ∷ [] }) k msg priority recovery)

  -- Returns whether the event was accepted, that is queued or summarized.
  unfoldable pub deliver : Engine → Key → Text → Text → Bool → Engine × Bool
  deliver e k msg priority recovery =
      let (db, _) = append_alert_history f e.db record {
        ts = unix_milli now;
        key = k;
        kind = if recovery then recovered else alert;
        message = msg;
      } in
      gate (record e { db = db }) k msg priority recovery

  -- Whether the cooldown of an incident is still running.
  abbrev pub cooling : Option ℕ → Bool
  cooling none = false
  cooling (some last) = ltb now (last + cfg.cooldown_s * second)

  -- Returns the engine and the state that it leaves.
  unfoldable pub raise : Engine → AlertState → Key → Text → Text → Engine × AlertState
  raise e st k msg priority =
      let st' = record st { state = active } in
      if cooling (lookup_raised k e.last_raised)
      then (e, st')
      else (let e1 = record e { last_raised = set_raised k now e.last_raised } in
          let (e2, accepted) = deliver e1 k msg priority false in
          (e2, if accepted then record st' { notified_at = some (unix_milli now) } else st'))

  abbrev pub upsert : Engine → AlertState → Engine
  upsert e st = record e { db = (upsert_alert_state f e.db st).0 }

  -- The switch of `step`, on the incident's row in the map of states. The second result is the row
  -- that the map's pointer then shows.
  unfoldable pub transition :
      Engine → Option AlertState → Key → Bool → ℕ → Text → Text → Text → Engine × Option AlertState
  transition e none k true sustain alert_msg recover_msg priority =
      let ns : AlertState = record {
        key = k;
        state = raising;
        since = unix_milli now;
        notified_at = none;
      } in
      let p : Engine × AlertState =
        if sustain == 0 then raise e ns k alert_msg priority else (e, ns) in
      (upsert p.0 p.1, none)
  transition e none k false sustain alert_msg recover_msg priority = (e, none)
  transition e (some st) k true sustain alert_msg recover_msg priority =
      if not (is_active st.state) && leb (from_milli st.since + sustain) now
      then (let p : Engine × AlertState = raise e st k alert_msg priority in
          (upsert p.0 p.1, some p.1))
      else (e, some st)
  transition e (some st) k false sustain alert_msg recover_msg priority =
      let e' : Engine =
        if was_notified st then (deliver e k recover_msg (codes "default") true).0 else e in
      (record e' { db = (delete_alert_state f e'.db k).0 }, some st)

  -- The row that `transition` returns takes the place of the one that the map points to.
  abbrev pub put_pointee : Option AlertState → List AlertState → List AlertState
  put_pointee none states = states
  put_pointee (some st) states = put_state st states

  unfoldable pub step :
      Engine → List AlertState → Key → Bool → ℕ → Text → Text → Text → Engine × List AlertState
  step e state_of k condition sustain alert_msg recover_msg priority =
      let p =
        transition e (find_state k state_of) k condition sustain alert_msg recover_msg priority in
      (p.0, put_pointee p.1 state_of)

-- ===== src/Alert/History.antt =====
-- What one call of `step` (internal/alert/engine.go) writes to the history and to the table of
-- incident rows.
use hoptrail.Common.{
  ℕ, ◌+◌, ◌≡◌, sym, ◌∙◌, Bool, true, false, not, ◌&&◌, Option, none, some, [], ◌∷◌, ◌++◌,
  append-nil, arith, leb, ◌==◌, if◌then◌else◌,
}
use hoptrail.Common.Float.{Float}
use hoptrail.Common.Text.{Text, codes}
use hoptrail.Alert.Config.{Config}
use hoptrail.Alert.Store.{
  Store, raising, Key, AlertState, alert, recovered, Faults, append_alert_history, enqueue_alert,
  delete_alert_state, upsert_alert_state,
}
use hoptrail.Alert.Engine.{
  Engine, unix_milli, from_milli, is_active, was_notified, lookup_raised, set_raised, cooling,
  append_summary, enqueue, gate, deliver, raise, transition,
}

-- Whether the incident is due to fire: it is not active yet, and it has held long enough.
abbrev pub is_due : ℕ → Option AlertState → ℕ → Bool
is_due now none sustain = sustain == 0
is_due now (some st) sustain = not (is_active st.state) && leb (from_milli st.since + sustain) now

abbrev pub is_paired : Option AlertState → Bool
is_paired none = false
is_paired (some st) = was_notified st

module _ (fl : Float) (minute_of_day : ℕ → ℕ) (cfg : Config fl) (f : Faults) (now : ℕ) where
  deliver_history :
      (e : Engine) (k : Key) (msg priority : Text) (recovery : Bool)
      → f.history_write ≡ false
      → (deliver fl minute_of_day cfg f now e k msg priority recovery).0.db.history
        ≡ e.db.history
          ++ record {
            ts = unix_milli now;
            key = k;
            kind = if recovery then recovered else alert;
            message = msg;
          }
            ∷ []
  unfolding deliver gate enqueue append_alert_history append_summary enqueue_alert
  deliver_history e k msg priority recovery h = ground arith

  raise_history :
      (e : Engine) (st : AlertState) (k : Key) (msg priority : Text)
      → f.history_write ≡ false
      → (raise fl minute_of_day cfg f now e st k msg priority).0.db.history
        ≡ e.db.history
          ++ (if cooling fl minute_of_day cfg f now (lookup_raised k e.last_raised)
              then []
              else record { ts = unix_milli now; key = k; kind = alert; message = msg } ∷ [])
  unfolding raise
  raise_history e st k msg priority h = ground (
    arith,
    deliver_history (record e { last_raised = set_raised k now e.last_raised }) k msg priority false
        h,
    append-nil e.db.history,
  )

  upsert_history :
      (db : Store) (st : AlertState) → (upsert_alert_state f db st).0.history ≡ db.history
  unfolding upsert_alert_state
  upsert_history db st = ground arith

  delete_history : (db : Store) (k : Key) → (delete_alert_state f db k).0.history ≡ db.history
  unfolding delete_alert_state
  delete_history db k = ground arith

  -- With a working history table, an evaluation of an incident whose condition holds records an
  -- alert exactly when the incident is due and not in its cooldown; one whose condition does not
  -- hold records a recovery exactly when the incident is active and its alert was accepted; it
  -- records nothing else.
  pub transition_history :
      (e : Engine) (row : Option AlertState) (k : Key) (condition : Bool) (sustain : ℕ)
      (alert_msg recover_msg priority : Text)
      → f.history_write ≡ false
      → (transition fl minute_of_day cfg f now e row k condition sustain alert_msg recover_msg
          priority).0.db.history
        ≡ e.db.history
          ++ (if condition
              then if is_due now row sustain
                  && not (cooling fl minute_of_day cfg f now (lookup_raised k e.last_raised))
                then record { ts = unix_milli now; key = k; kind = alert; message = alert_msg } ∷ []
                else []
              else if is_paired row
              then record { ts = unix_milli now; key = k; kind = recovered; message = recover_msg }
                ∷ []
              else [])
  unfolding transition
  transition_history e none k true sustain alert_msg recover_msg priority h =
      upsert_history _ _
      ∙ ground (
        arith,
        raise_history e
            (record { key = k; state = raising; since = unix_milli now; notified_at = none }) k
            alert_msg priority h,
        append-nil e.db.history,
      )
  transition_history e none k false sustain alert_msg recover_msg priority h = sym (append-nil _)
  transition_history e (some st) k true sustain alert_msg recover_msg priority h = ground (
    arith,
    raise_history e st k alert_msg priority h,
    upsert_history (raise fl minute_of_day cfg f now e st k alert_msg priority).0.db
        (raise fl minute_of_day cfg f now e st k alert_msg priority).1,
    append-nil e.db.history,
  )
  transition_history e (some st) k false sustain alert_msg recover_msg priority h =
      delete_history _ k
      ∙ ground
          (arith, deliver_history e k recover_msg (codes "default") true h, append-nil e.db.history)

-- ===== src/Alert/Store.antt =====
-- The tables that the alert engine writes (internal/storage/alerts.go): one row of incident state
-- for each event and subject, the append-only history, the delivery queue, and the config row that
-- buffers the quiet-hours summary. `Faults` says which of the store's calls fail.
-- Row ids, and the count of delivery attempts, which only the sender reads, are left out.
use hoptrail.Common.{
  ℕ, Bool, true, false, ◌&&◌, Option, none, some, List, [], ◌∷◌, ◌++◌, if◌then◌else◌,
}
use hoptrail.Common.Text.{Text, text_eq}
use hoptrail.Alert.Config.{EventType, probe_offline, target_loss, latency, derate, capacity}

pub data Phase : Type 0 where
  raising active : Phase

-- The map key `event + "|" + subject`; no event name holds a bar.
pub record Key : Type 0 where
  pub event : EventType
  pub subject : Text

abbrev pub same_event : EventType → EventType → Bool
same_event probe_offline probe_offline = true
same_event target_loss target_loss = true
same_event latency latency = true
same_event derate derate = true
same_event capacity capacity = true
same_event _ _ = false

unfoldable pub same_key : Key → Key → Bool
unfolding text_eq
same_key a b = same_event a.event b.event && text_eq a.subject b.subject

pub record AlertState : Type 0 where
  pub key : Key
  pub state : Phase
  pub since : ℕ  -- unix ms
  pub notified_at : Option ℕ

pub data Kind : Type 0 where
  alert recovered cleared : Kind

pub record AlertHistoryEntry : Type 0 where
  pub ts : ℕ
  pub key : Key
  pub kind : Kind
  pub message : Text

pub record AlertQueueItem : Type 0 where
  pub created_at : ℕ
  pub title : Text
  pub body : Text
  pub priority : Text

pub record SummaryEntry : Type 0 where
  pub ts : ℕ
  pub key : Key
  pub msg : Text
  pub recovery : Bool

pub record Store : Type 0 where
  pub states : List AlertState
  pub history : List AlertHistoryEntry
  pub queue : List AlertQueueItem
  pub summary : List SummaryEntry

pub record Faults : Type 0 where
  pub history_write : Bool
  pub summary_read : Bool
  pub summary_write : Bool
  pub summary_delete : Bool
  pub enqueue : Bool
  pub state_write : Bool
  pub state_delete : Bool

unfoldable pub find_state : Key → List AlertState → Option AlertState
find_state k [] = none
find_state k (st ∷ sts) = let rest = find_state k sts in if same_key st.key k then some st else rest

-- `INSERT … ON CONFLICT … DO UPDATE`
unfoldable pub put_state : AlertState → List AlertState → List AlertState
put_state a [] = a ∷ []
put_state a (st ∷ sts) =
    let rest = put_state a sts in if same_key st.key a.key then a ∷ sts else st ∷ rest

unfoldable pub drop_state : Key → List AlertState → List AlertState
drop_state k [] = []
drop_state k (st ∷ sts) =
    let rest = drop_state k sts in if same_key st.key k then rest else st ∷ rest

-- Each call returns the store and whether it went through.
unfoldable pub upsert_alert_state : Faults → Store → AlertState → Store × Bool
unfolding put_state
upsert_alert_state f db a =
    if f.state_write then (db, false) else (record db { states = put_state a db.states }, true)

unfoldable pub delete_alert_state : Faults → Store → Key → Store × Bool
unfolding drop_state
delete_alert_state f db k =
    if f.state_delete then (db, false) else (record db { states = drop_state k db.states }, true)

unfoldable pub append_alert_history : Faults → Store → AlertHistoryEntry → Store × Bool
append_alert_history f db e =
    if f.history_write then (db, false) else (record db { history = db.history ++ e ∷ [] }, true)

unfoldable pub enqueue_alert : Faults → Store → AlertQueueItem → Store × Bool
enqueue_alert f db item =
    if f.enqueue then (db, false) else (record db { queue = db.queue ++ item ∷ [] }, true)

-- ===== src/Server/Incidents.antt =====
-- internal/server/alerts.go: what the removal of a subject does to its incidents.
use hoptrail.Common.{ℕ, Bool, false, not, ◌||◌, List, [], ◌∷◌, ◌++◌, if◌then◌else◌}
use hoptrail.Common.Text.{Text, codes, text_eq}
use hoptrail.Alert.Config.{EventType}
use hoptrail.Alert.Engine.{event_name, is_active}
use hoptrail.Alert.Store.{
  same_event, AlertState, cleared, Faults, Store, append_alert_history, delete_alert_state,
}

-- `clearSubjectAlertStates`: the loop over the states.
unfoldable pub has_event : EventType → List EventType → Bool
has_event e [] = false
has_event e (x ∷ xs) = same_event x e || has_event e xs

abbrev pub cleared_message : AlertState → Text
cleared_message st =
    st.key.subject
    ++ codes " removed from monitoring — "
    ++ event_name st.key.event
    ++ codes " incident cleared"

abbrev pub clear_state : Faults → ℕ → Store → AlertState → Store
clear_state f now db st =
    let t : Store =
      if is_active st.state
      then (append_alert_history f db
          (record { ts = now; key = st.key; kind = cleared; message = cleared_message st })).0
      else db in
    (delete_alert_state f t st.key).0

unfoldable pub clear_states : Faults → ℕ → Text → List EventType → List AlertState → Store → Store
unfolding has_event
clear_states f now subject events [] db = db
clear_states f now subject events (st ∷ sts) db = clear_states f now subject events sts (
    if not (text_eq st.key.subject subject) || not (has_event st.key.event events)
    then db
    else clear_state f now db st)

unfoldable pub clear_subject_alert_states :
    Bool → Faults → ℕ → Text → List EventType → Store → Store
unfolding clear_states
clear_subject_alert_states list_fails f now subject events db =
    if list_fails then db else clear_states f now subject events db.states db

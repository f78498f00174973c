-- ===== src/Server/Targets.antt =====
-- internal/server/handlers.go: the endpoints that change the monitored targets. A request ends in its
-- status; an error of the supervisor is read off its kind, which the code tells by the words of the
-- message.
use hoptrail.Common.{
  ℕ, Bool, true, false, not, ◌||◌, Option, none, some, List, [], ◌∷◌, map, ◌==◌, if◌then◌else◌,
}
use hoptrail.Common.Int.{ℤ, pos, ltb_ℤ}
use hoptrail.Common.Text.{Text, text_eq, text_lt, is_blank}
use hoptrail.Release.{trim_space}
use hoptrail.Alert.Config.{target_loss, latency}
use hoptrail.Alert.Store.{Faults, Store}
use hoptrail.Server.Incidents.{clear_subject_alert_states}
use hoptrail.Supervisor.Resolve.{World}
use hoptrail.Supervisor.Pipelines.{
  ProbeConfig, Supervisor, SupervisorError, unresolved, not_monitored, already_monitored,
  interval_out_of_range, bad_thresholds, name_of,
}
use hoptrail.Supervisor.Operations.{
  TargetFaults, add_target, duration_ms, set_interval, set_thresholds, set_final_hop_only,
  remove_target, swap,
}

unfoldable pub has_slash : Text → Bool
has_slash [] = false
has_slash (c ∷ s) = c == b'/' || has_slash s

unfoldable pub insert_text : Text → List Text → List Text
insert_text t [] = t ∷ []
insert_text t (u ∷ us) = let rest = insert_text t us in if text_lt u t then u ∷ rest else t ∷ u ∷ us

-- `sort.Strings`
unfoldable pub sort_texts : List Text → List Text
unfolding insert_text
sort_texts [] = []
sort_texts (t ∷ ts) = insert_text t (sort_texts ts)

unfoldable pub targets : Supervisor → List Text
unfolding sort_texts
targets s = sort_texts (map name_of s.pipelines)

-- None is a body that does not decode, or holds no target.
abbrev pub decode_target_request : Option Text → Option Text
decode_target_request none = none
decode_target_request (some t) = if is_blank (trim_space t) then none else some (trim_space t)

abbrev pub add_status : Option SupervisorError → ℕ
add_status none = 200
add_status (some already_monitored) = 409
add_status (some unresolved) = 400
add_status (some _) = 500

abbrev pub with_status :
    (Option SupervisorError → ℕ) → Supervisor × Option SupervisorError → Supervisor × ℕ
with_status status (s, e) = (s, status e)

abbrev pub add_decoded :
    ProbeConfig → World → TargetFaults → Supervisor → Option Text → Supervisor × ℕ
add_decoded c w f s none = (s, 400)
add_decoded c w f s (some id) = with_status add_status (add_target c w f s id)

unfoldable pub handle_targets_add :
    ProbeConfig → World → TargetFaults → Supervisor → Option Text → Supervisor × ℕ
handle_targets_add c w f s body = add_decoded c w f s (decode_target_request body)

abbrev pub swap_status : Option SupervisorError → ℕ
swap_status none = 200
swap_status (some unresolved) = 400
swap_status (some _) = 500

abbrev pub is_only : Text → List Text → Bool
is_only id [] = false
is_only id (t ∷ []) = text_eq t id
is_only id (t ∷ u ∷ us) = false

abbrev pub post_decoded :
    ProbeConfig → World → TargetFaults → Supervisor → Option Text → Supervisor × ℕ
post_decoded c w f s none = (s, 400)
post_decoded c w f s (some id) =
    if is_only id (targets s) then (s, 200) else with_status swap_status (swap c w f s id)

unfoldable pub handle_target_post :
    ProbeConfig → World → TargetFaults → Supervisor → Option Text → Supervisor × ℕ
handle_target_post c w f s body = post_decoded c w f s (decode_target_request body)

abbrev pub map_supervisor_err : SupervisorError → ℕ
map_supervisor_err not_monitored = 404
map_supervisor_err interval_out_of_range = 400
map_supervisor_err bad_thresholds = 400
map_supervisor_err _ = 500

abbrev pub delete_status : SupervisorError → ℕ
delete_status not_monitored = 404
delete_status _ = 500

-- The failures of the alert store during a removal: of the list, and of the other calls.
abbrev pub deleted_target :
    Bool
    → Faults
    → ℕ
    → Text
    → Store
    → Supervisor × Option SupervisorError
    → (Supervisor × Store) × ℕ
deleted_target list_fails g now id db (s, some e) = ((s, db), delete_status e)
deleted_target list_fails g now id db (s, none) =
    ((s, clear_subject_alert_states list_fails g now id (target_loss ∷ latency ∷ []) db), 200)

unfoldable pub handle_target_delete :
    TargetFaults → Bool → Faults → ℕ → Supervisor → Store → Text → (Supervisor × Store) × ℕ
unfolding clear_subject_alert_states
handle_target_delete f list_fails g now s db id =
    deleted_target list_fails g now id db (remove_target f s id)

-- A threshold that the body names may be null.
pub record TargetPatch : Type 0 where
  pub interval_ms : Option ℤ
  pub warning_ms : Option (Option ℤ)
  pub critical_ms : Option (Option ℤ)
  pub final_hop_only : Option Bool

-- A stage of the patch goes on, or ends with a status.
abbrev pub stage : Supervisor × Option SupervisorError → Supervisor × Option ℕ
stage (s, none) = (s, none)
stage (s, some e) = (s, some (map_supervisor_err e))

abbrev pub patch_interval :
    ProbeConfig → TargetFaults → Text → Option ℤ → Supervisor → Supervisor × Option ℕ
patch_interval c f id none s = (s, none)
patch_interval c f id (some ms) s =
    if not (ltb_ℤ (pos 0) ms) then (s, some 400) else stage (set_interval c f s id (duration_ms ms))

abbrev pub patch_thresholds :
    TargetFaults → Text → Option (Option ℤ) → Option (Option ℤ) → Supervisor → Supervisor × Option ℕ
patch_thresholds f id none none s = (s, none)
patch_thresholds f id (some w) (some c) s = stage (set_thresholds f s id w c)
patch_thresholds f id none (some c) s = (s, some 400)
patch_thresholds f id (some w) none s = (s, some 400)

abbrev pub patch_final_hop_only :
    ProbeConfig → TargetFaults → Text → Option Bool → Supervisor → Supervisor × Option ℕ
patch_final_hop_only c f id none s = (s, none)
patch_final_hop_only c f id (some b) s = stage (set_final_hop_only c f s id b)

abbrev pub then_stage :
    Supervisor × Option ℕ → (Supervisor → Supervisor × Option ℕ) → Supervisor × Option ℕ
then_stage (s, none) next = next s
then_stage (s, some code) next = (s, some code)

abbrev pub status_or_ok : Supervisor × Option ℕ → Supervisor × ℕ
status_or_ok (s, none) = (s, 200)
status_or_ok (s, some code) = (s, code)

abbrev pub given_field {ℓ} : {A : Type ℓ} → Option A → Bool
given_field none = false
given_field (some a) = true

abbrev pub touches : TargetPatch → Bool
touches p =
    given_field p.interval_ms
    || (given_field p.warning_ms || given_field p.critical_ms)
    || given_field p.final_hop_only

abbrev pub patch_decoded :
    ProbeConfig → TargetFaults → Supervisor → Text → Option TargetPatch → Supervisor × ℕ
patch_decoded c f s id none = (s, 400)
patch_decoded c f s id (some p) =
    if not (touches p)
    then (s, 400)
    else status_or_ok (
        then_stage
          (then_stage (patch_interval c f id p.interval_ms s)
            (patch_thresholds f id p.warning_ms p.critical_ms))
          (patch_final_hop_only c f id p.final_hop_only))

unfoldable pub handle_target_patch :
    ProbeConfig → TargetFaults → Supervisor → Text → Option TargetPatch → Supervisor × ℕ
handle_target_patch c f s id body = patch_decoded c f s id body

pub data TargetMethod : Type 0 where
  a_delete : TargetMethod
  a_patch : Option TargetPatch → TargetMethod
  another_method : TargetMethod

abbrev pub by_method :
    ProbeConfig
    → TargetFaults
    → Bool
    → Faults
    → ℕ
    → Supervisor
    → Store
    → Text
    → TargetMethod
    → (Supervisor × Store) × ℕ
by_method c f list_fails g now s db id a_delete = handle_target_delete f list_fails g now s db id
by_method c f list_fails g now s db id (a_patch body) =
    let p : Supervisor × ℕ = handle_target_patch c f s id body in ((p.0, db), p.1)
by_method c f list_fails g now s db id another_method = ((s, db), 405)

-- `/api/targets/<id>`
unfoldable pub handle_target_by_path :
    ProbeConfig
    → TargetFaults
    → Bool
    → Faults
    → ℕ
    → Supervisor
    → Store
    → Text
    → TargetMethod
    → (Supervisor × Store) × ℕ
unfolding has_slash
handle_target_by_path c f list_fails g now s db id m =
    if is_blank id || has_slash id then ((s, db), 400) else by_method c f list_fails g now s db id m

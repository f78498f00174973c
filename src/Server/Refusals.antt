-- ===== src/Server/Refusals.antt =====
-- What a refused request leaves behind (internal/server/handlers.go).
use hoptrail.Common.{
  ℕ, ◌≡◌, refl, ap, ◌∙◌, ◌⊎◌, inl, inr, Bool, false, ◌&&◌, ◌||◌, Option, none, some, arith,
  Bool-cases, Option-cases,
}
use hoptrail.Common.Int.{ℤ, pos, ltb_ℤ, same_ℤ, quotient}
use hoptrail.Common.Addr.{same, is_valid}
use hoptrail.Common.Keyed.{is_some, find}
use hoptrail.Common.Text.{Text, is_blank}
use hoptrail.Alert.Store.{Faults, Store}
use hoptrail.Storage.ActiveTargets.{
  TargetTables, set_active_target_interval, set_active_target_final_hop_only,
}
use hoptrail.Supervisor.Resolve.{World, resolve_target}
use hoptrail.Supervisor.Pipelines.{
  ProbeConfig, Supervisor, SupervisorError, name_of, rebuild_pipeline, same_bool, given,
  is_buildable, out_of_range,
}
use hoptrail.Supervisor.Operations.{
  TargetFaults, add_target, remove_target, swap, duration_ms, rebuild_recorded, set_interval,
  set_final_hop_only, set_thresholds, not_positive, not_ordered,
}
use hoptrail.Supervisor.MirrorAdd.{add_pipeline_cases}
use hoptrail.Server.Targets.{
  targets, decode_target_request, add_status, with_status, handle_targets_add, swap_status, is_only,
  handle_target_post, handle_target_delete, handle_target_by_path, a_delete, has_slash, stage,
  status_or_ok, then_stage, TargetPatch, patch_interval, handle_target_patch,
}

-- An operation succeeds, or leaves everything as it was.
abbrev DoneOrUnchanged : Supervisor → Supervisor × Option SupervisorError → Type 0
DoneOrUnchanged s p = (p.1 ≡ none) ⊎ (p.0 ≡ s)

add-DoneOrUnchanged :
    (c : ProbeConfig) (w : World) (f : TargetFaults) (s : Supervisor) (k : Text)
    → DoneOrUnchanged s (add_target c w f s k)
unfolding add_target
add-DoneOrUnchanged c w f s k = elim (add_pipeline_cases c w s k c.interval none none false) [
  | inl (e, q) ↦ rw q (inr refl)
  | inr (a, e, o, g, q) ↦ rw q (inl refl)
]

swap-DoneOrUnchanged :
    (c : ProbeConfig) (w : World) (f : TargetFaults) (s : Supervisor) (k : Text)
    → DoneOrUnchanged s (swap c w f s k)
unfolding swap add_target
swap-DoneOrUnchanged c w f s k = elim (Option-cases (resolve_target w k)) [
  | inl e ↦ rw e (inr refl)
  | inr (a, e) ↦ elim (Bool-cases (is_some (find name_of k s.pipelines))) [
    | inl o ↦ rw (e, o) (inl refl)
    | inr o ↦ elim (add_pipeline_cases c w s k c.interval none none false) [
      | inl (x, q) ↦ rw (e, o, q) (inr refl)
      | inr (b, x, y, g, q) ↦ rw (e, o, q) (inl refl)
    ]
  ]
]

-- The status tells.
abbrev pub OkOrUnchanged : Supervisor → Supervisor × ℕ → Type 0
OkOrUnchanged s p = (p.1 ≡ 200) ⊎ (p.0 ≡ s)

with_status-OkOrUnchanged :
    (status : Option SupervisorError → ℕ) (s : Supervisor) (p : Supervisor × Option SupervisorError)
    → status none ≡ 200
    → DoneOrUnchanged s p
    → OkOrUnchanged s (with_status status p)
with_status-OkOrUnchanged status s (t, e) h (inl d) = inl (ap status d ∙ h)
with_status-OkOrUnchanged status s (t, e) h (inr d) = inr d

add_request :
    (c : ProbeConfig) (w : World) (f : TargetFaults) (s : Supervisor) (body : Option Text)
    → OkOrUnchanged s (handle_targets_add c w f s body)
unfolding handle_targets_add
add_request c w f s body = elim (Option-cases (decode_target_request body)) [
  | inl e ↦ rw e (inr refl)
  | inr (id, e) ↦ rw e (
      with_status-OkOrUnchanged add_status s (add_target c w f s id) refl
        (add-DoneOrUnchanged c w f s id))
]

post_request :
    (c : ProbeConfig) (w : World) (f : TargetFaults) (s : Supervisor) (body : Option Text)
    → OkOrUnchanged s (handle_target_post c w f s body)
unfolding handle_target_post
post_request c w f s body = elim (Option-cases (decode_target_request body)) [
  | inl e ↦ rw e (inr refl)
  | inr (id, e) ↦ elim (Bool-cases (is_only id (targets s))) [
    | inl o ↦ rw (e, o) (inl refl)
    | inr o ↦
        rw (e, o)
          (with_status-OkOrUnchanged swap_status s (swap c w f s id) refl
            (swap-DoneOrUnchanged c w f s id))
  ]
]

rebuild_recorded-DoneOrUnchanged :
    (c : ProbeConfig) (write : TargetTables → TargetTables) (s : Supervisor) (k : Text)
    (i : Option ℤ) (b : Option Bool)
    → DoneOrUnchanged s (rebuild_recorded write (rebuild_pipeline c s k none i b))
unfolding rebuild_pipeline
rebuild_recorded-DoneOrUnchanged c write s k i b =
    elim (Option-cases (find name_of k s.pipelines)) [
      | inl e ↦ inr (rw e refl)
      | inr (old, e) ↦
          elim (Bool-cases (
            same old.addr old.addr
            && same_ℤ (given i old.interval) old.interval
            && same_bool (given b old.final_hop_only) old.final_hop_only)) [
              | inl f ↦ inr (rw (e, f) refl)
              | inr f ↦
                  elim (Bool-cases
                    (is_valid old.addr && is_buildable c && ltb_ℤ (pos 0) (given i old.interval))) [
                      | inl v ↦ inl (rw (e, f, v) refl)
                      | inr v ↦ inr (rw (e, f, v) refl)
                    ]
            ]
    ]

-- The patches that change one setting.
pub data OneSetting : Type 0 where
  an_interval : ℤ → OneSetting
  the_thresholds : Option ℤ → Option ℤ → OneSetting
  a_final_hop_only : Bool → OneSetting

abbrev pub patch_of : OneSetting → TargetPatch
patch_of (an_interval ms) = record {
  interval_ms = some ms;
  warning_ms = none;
  critical_ms = none;
  final_hop_only = none;
}
patch_of (the_thresholds w c) = record {
  interval_ms = none;
  warning_ms = some w;
  critical_ms = some c;
  final_hop_only = none;
}
patch_of (a_final_hop_only b) = record {
  interval_ms = none;
  warning_ms = none;
  critical_ms = none;
  final_hop_only = some b;
}

-- A patch of one stage.
staged :
    (s : Supervisor) (p : Supervisor × Option SupervisorError)
    → DoneOrUnchanged s p
    → OkOrUnchanged s (status_or_ok (stage p))
staged s (t, none) h = inl refl
staged s (t, some e) (inl h) = absurd (ground arith)
staged s (t, some e) (inr h) = inr h

last_stage : (p : Supervisor × Option ℕ) → then_stage p (λ s. (s, none)) ≡ p
last_stage (s, none) = refl
last_stage (s, some code) = refl

interval_stage :
    (c : ProbeConfig) (f : TargetFaults) (s : Supervisor) (id : Text) (ms : ℤ)
    → OkOrUnchanged s (status_or_ok (patch_interval c f id (some ms) s))
unfolding set_interval
interval_stage c f s id ms = elim (Bool-cases (ltb_ℤ (pos 0) ms)) [
  | inr e ↦ rw e (inr refl)
  | inl e ↦ elim (Bool-cases (out_of_range (duration_ms ms))) [
    | inl o ↦ rw (e, o) (inr refl)
    | inr o ↦
        rw (e, o)
          (staged s
            (rebuild_recorded
              (set_active_target_interval f.set (some (quotient (duration_ms ms) 1_000_000)) id)
              (rebuild_pipeline c s id none (some (duration_ms ms)) none))
            (rebuild_recorded-DoneOrUnchanged c
              (set_active_target_interval f.set (some (quotient (duration_ms ms) 1_000_000)) id) s
              id (some (duration_ms ms)) none))
  ]
]

set_thresholds-DoneOrUnchanged :
    (f : TargetFaults) (s : Supervisor) (k : Text) (x y : Option ℤ)
    → DoneOrUnchanged s (set_thresholds f s k x y)
unfolding set_thresholds
set_thresholds-DoneOrUnchanged f s k x y =
    elim (Bool-cases (not_positive x || not_positive y || not_ordered x y)) [
      | inl e ↦ rw e (inr refl)
      | inr e ↦ elim (Bool-cases (is_some (find name_of k s.pipelines))) [
        | inl o ↦ rw (e, o) (inl refl)
        | inr o ↦ rw (e, o) (inr refl)
      ]
    ]

patch_request :
    (c : ProbeConfig) (f : TargetFaults) (s : Supervisor) (id : Text) (p : OneSetting)
    → OkOrUnchanged s (handle_target_patch c f s id (some (patch_of p)))
unfolding handle_target_patch set_final_hop_only
patch_request c f s id (an_interval ms) =
    rw
      (
        last_stage (patch_interval c f id (some ms) s),
        last_stage (patch_interval c f id (some ms) s),
      )
      (interval_stage c f s id ms)
patch_request c f s id (the_thresholds x y) =
    rw (last_stage (stage (set_thresholds f s id x y)))
      (staged s (set_thresholds f s id x y) (set_thresholds-DoneOrUnchanged f s id x y))
patch_request c f s id (a_final_hop_only b) = staged s (set_final_hop_only c f s id b) (
    rebuild_recorded-DoneOrUnchanged c (set_active_target_final_hop_only f.set b id) s id none
      (some b))

delete_request :
    (c : ProbeConfig) (f : TargetFaults) (b : Bool) (g : Faults) (now : ℕ) (s : Supervisor)
    (db : Store) (id : Text)
    → ((handle_target_by_path c f b g now s db id a_delete).1 ≡ 200)
      ⊎ ((handle_target_by_path c f b g now s db id a_delete).0 ≡ (s, db))
unfolding handle_target_by_path handle_target_delete remove_target
delete_request c f b g now s db id = elim (Bool-cases (is_blank id || has_slash id)) [
  | inl e ↦ rw e (inr refl)
  | inr e ↦ elim (Bool-cases (is_some (find name_of id s.pipelines))) [
    | inl o ↦ rw (e, o) (inl refl)
    | inr o ↦ rw (e, o) (inr refl)
  ]
]

-- A request to add a target, to make it the only one, to remove one (with its incidents), or to change
-- one setting of it, is answered with 200, or has changed nothing, neither a pipeline nor a row, nor
-- an incident; whatever the resolver answers and whichever writes to the tables fail.
pub refused-unchanged :
    (c : ProbeConfig) (w : World) (f : TargetFaults) (b : Bool) (g : Faults) (now : ℕ)
    (s : Supervisor) (db : Store) (body : Option Text) (id : Text) (p : OneSetting)
    → OkOrUnchanged s (handle_targets_add c w f s body)
      × OkOrUnchanged s (handle_target_post c w f s body)
      × OkOrUnchanged s (handle_target_patch c f s id (some (patch_of p)))
      × (((handle_target_by_path c f b g now s db id a_delete).1 ≡ 200)
          ⊎ ((handle_target_by_path c f b g now s db id a_delete).0 ≡ (s, db)))
refused-unchanged c w f b g now s db body id p = (
  add_request c w f s body,
  post_request c w f s body,
  patch_request c f s id p,
  delete_request c f b g now s db id,
)

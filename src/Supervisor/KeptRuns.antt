-- ===== src/Supervisor/KeptRuns.antt =====
-- Runs of requests to cmd/hoptrail/supervisor.go keep the mirror.
use hoptrail.Common.{inl, inr, Option, none, some, List, [], ◌∷◌, map, Bool-cases, Option-cases}
use hoptrail.Common.Keyed.{find, is_some}
use hoptrail.Common.Text.{Text, text_eq}
use hoptrail.Supervisor.Resolve.{World, resolve_target}
use hoptrail.Supervisor.Pipelines.{ProbeConfig, Supervisor, SupervisorError, name_of}
use hoptrail.Supervisor.Operations.{add_target, remove_other, remove_others, swap_added, swap}
use hoptrail.Supervisor.Runs.{
  Request, adding, removing, swapping, reresolving, setting_interval, setting_thresholds,
  setting_final_hop_only, request,
}
use hoptrail.Supervisor.SoundRuns.{request-Sound, remove-Sound, add-Sound}
use hoptrail.Supervisor.Mirror.{Kept}
use hoptrail.Supervisor.Mirroring.{working}
use hoptrail.Supervisor.MirrorRequests.{
  MirrorOf, set_interval-Mirrors, set_final_hop_only-Mirrors, reresolve-Mirrors,
  set_thresholds-Mirrors, remove-Mirrors,
}
use hoptrail.Supervisor.MirrorAdd.{add-Mirrors}

module _ (c : ProbeConfig) (w : World) where
  remove_other-Kept : (k j : Text) (s : Supervisor) → Kept c s → Kept c (remove_other working k j s)
  remove_other-Kept k j s m = elim (Bool-cases (text_eq j k)) [
    | inl e ↦ rw e m
    | inr e ↦ let r = remove-Mirrors c w s j m in rw e (remove-Sound c w working s j m.0, r.0, r.1)
  ]

  pub remove_others-Kept :
      (k : Text) (ks : List Text) (s : Supervisor)
      → Kept c s
      → Kept c (remove_others working k ks s)
  unfolding remove_others
  remove_others-Kept k [] s m = m
  remove_others-Kept k (j ∷ ks) s m =
      remove_others-Kept k ks (remove_other working k j s) (remove_other-Kept k j s m)

  pub swap_added-Kept :
      (k : Text) (ks : List Text) (s : Supervisor) (o : Option SupervisorError)
      → Kept c s
      → Kept c (swap_added working k ks (s, o)).0
  swap_added-Kept k ks s (some e) m = m
  swap_added-Kept k ks s none m = remove_others-Kept k ks s m

  pub swap-Kept : (s : Supervisor) (k : Text) → Kept c s → Kept c (swap c w working s k).0
  unfolding swap
  swap-Kept s k m = elim (Option-cases (resolve_target w k)) [
    | inl e ↦ rw e m
    | inr (a, e) ↦ elim (Bool-cases (is_some (find name_of k s.pipelines))) [
      | inl o ↦ rw (e, o) (remove_others-Kept k (map name_of s.pipelines) s m)
      | inr o ↦
          let r = add-Mirrors c w s k m in
          rw (e, o)
            (swap_added-Kept k (map name_of s.pipelines) (add_target c w working s k).0
              (add_target c w working s k).1 (add-Sound c w working s k m.0, r.0, r.1))
    ]
  ]

  pub kept : (r : Request) (s : Supervisor) → Kept c s → MirrorOf c (request c w working r s)
  kept (adding k) s m = add-Mirrors c w s k m
  kept (removing k) s m = remove-Mirrors c w s k m
  kept (swapping k) s m = let r = swap-Kept s k m in (r.1, r.2)
  kept (reresolving k) s m = reresolve-Mirrors c w s k m
  kept (setting_interval k i) s m = set_interval-Mirrors c w s k i m
  kept (setting_thresholds k x y) s m = set_thresholds-Mirrors c w s k x y m
  kept (setting_final_hop_only k b) s m = set_final_hop_only-Mirrors c w s k b m

  pub request-Kept : (r : Request) (s : Supervisor) → Kept c s → Kept c (request c w working r s)
  request-Kept r s m = let q = kept r s m in (request-Sound c w working r s m.0, q.0, q.1)

-- Requests from a new start on, with what the resolver answers; every statement of the store works.
unfoldable pub requests : ProbeConfig → List (World × Request) → Supervisor → Supervisor
requests c [] s = s
requests c ((w, r) ∷ rs) s = requests c rs (request c w working r s)

pub requests-Kept :
    (c : ProbeConfig) (rs : List (World × Request)) (s : Supervisor)
    → Kept c s
    → Kept c (requests c rs s)
unfolding requests
requests-Kept c [] s m = m
requests-Kept c ((w, r) ∷ rs) s m =
    requests-Kept c rs (request c w working r s) (request-Kept c w r s m)

-- ===== src/Supervisor/SoundRuns.antt =====
-- The operations of cmd/hoptrail/supervisor.go keep every target sound.
use hoptrail.Common.{
  refl, inl, inr, Bool, true, false, Option, none, some, List, [], ◌∷◌, map, All, Bool-cases,
  Option-cases,
}
use hoptrail.Common.Int.{ℤ, quotient}
use hoptrail.Common.Keyed.{find, is_some}
use hoptrail.Common.Everywhere.{erase-All, change-All, sort-All}
use hoptrail.Common.Text.{Text, text_eq}
use hoptrail.Storage.ActiveTargets.{
  ActiveTarget, TargetTables, target_of, with_interval, with_thresholds, with_final_hop_only,
  active_targets, set_active_target_interval, set_active_target_thresholds,
  set_active_target_final_hop_only,
}
use hoptrail.Supervisor.Resolve.{World, resolve_target}
use hoptrail.Supervisor.Pipelines.{
  ProbeConfig, Supervisor, SupervisorError, name_of, out_of_range, add_pipeline, Rebuilt,
  rebuild_pipeline,
}
use hoptrail.Supervisor.Operations.{
  TargetFaults, add_target, clamped, row_interval, hydrate_rows, hydrate_read, hydrate,
  set_interval, set_final_hop_only, rethresholded, set_thresholds, remove_target, remove_other,
  remove_others, swap_added, swap, reresolve, shutdown,
}
use hoptrail.Supervisor.Runs.{
  Request, adding, removing, swapping, reresolving, setting_interval, setting_thresholds,
  setting_final_hop_only, new_supervisor, request, restart, run_all,
}
use hoptrail.Supervisor.Soundness.{
  are_bad, SoundPipeline, SoundRow, Sound, resolve_target_unicast, add_pipeline-Sound,
  rebuild_pipeline-Sound,
}
use hoptrail.Supervisor.SoundTables.{
  SoundTables, set_active_target-Sound, remove_active_target-Sound, add_recorded-Sound,
  rebuild_recorded-Sound,
}

module _ (c : ProbeConfig) (w : World) (f : TargetFaults) where
  pub add-Sound : (s : Supervisor) (k : Text) → Sound s → Sound (add_target c w f s k).0
  unfolding add_target
  add-Sound s k h =
      let p : Supervisor × Option SupervisorError =
        add_pipeline c w s k c.interval none none false in
      add_recorded-Sound w f k p.0 p.1
        (add_pipeline-Sound c s h w k c.interval none none false refl)

  set_interval-Sound :
      (s : Supervisor) (k : Text) (i : ℤ) → Sound s → Sound (set_interval c f s k i).0
  unfolding set_interval set_active_target_interval
  set_interval-Sound s k i h =
      let p : Supervisor × Rebuilt = rebuild_pipeline c s k none (some i) none in
      elim (Bool-cases (out_of_range i)) [
        | inl e ↦ rw e h
        | inr e ↦ rw e (
            rebuild_recorded-Sound
              (set_active_target_interval f.set (some (quotient i 1_000_000)) k) p.0 p.1
              (λ t.
                set_active_target-Sound f.set (with_interval (some (quotient i 1_000_000))) k t
                  (λ r z. z))
              (rebuild_pipeline-Sound c s h k none (some i) none refl (rw e refl)))
      ]

  set_final_hop_only-Sound :
      (s : Supervisor) (k : Text) (b : Bool) → Sound s → Sound (set_final_hop_only c f s k b).0
  unfolding set_final_hop_only set_active_target_final_hop_only
  set_final_hop_only-Sound s k b h =
      let p : Supervisor × Rebuilt = rebuild_pipeline c s k none none (some b) in
      rebuild_recorded-Sound (set_active_target_final_hop_only f.set b k) p.0 p.1
        (λ t. set_active_target-Sound f.set (with_final_hop_only b) k t (λ r z. z))
        (rebuild_pipeline-Sound c s h k none none (some b) refl refl)

  set_thresholds-Sound :
      (s : Supervisor) (k : Text) (warning_ms critical_ms : Option ℤ)
      → Sound s
      → Sound (set_thresholds f s k warning_ms critical_ms).0
  unfolding set_thresholds set_active_target_thresholds
  set_thresholds-Sound s k warning_ms critical_ms h =
      elim (Bool-cases (are_bad warning_ms critical_ms)) [
        | inl e ↦ rw e h
        | inr e ↦ elim (Bool-cases (is_some (find name_of k s.pipelines))) [
          | inr o ↦ rw (e, o) h
          | inl o ↦
              rw (e, o)
                (
                  change-All name_of SoundPipeline (rethresholded warning_ms critical_ms) k
                      s.pipelines (λ p z. (z.0, z.1, z.2, e)) h.0,
                  set_active_target-Sound f.set (with_thresholds warning_ms critical_ms) k s.tables
                      (λ r z. e) h.1,
                )
        ]
      ]

  pub remove-Sound : (s : Supervisor) (k : Text) → Sound s → Sound (remove_target f s k).0
  unfolding remove_target
  remove-Sound s k h = elim (Bool-cases (is_some (find name_of k s.pipelines))) [
    | inr o ↦ rw o h
    | inl o ↦ rw o (
      erase-All name_of SoundPipeline k s.pipelines h.0,
      remove_active_target-Sound f.remove k s.tables h.1,
    )
  ]

  remove_other-Sound : (k j : Text) (s : Supervisor) → Sound s → Sound (remove_other f k j s)
  remove_other-Sound k j s h = elim (Bool-cases (text_eq j k)) [
    | inl e ↦ rw e h
    | inr e ↦ rw e (remove-Sound s j h)
  ]

  remove_others-Sound :
      (k : Text) (ks : List Text) (s : Supervisor) → Sound s → Sound (remove_others f k ks s)
  unfolding remove_others
  remove_others-Sound k [] s h = h
  remove_others-Sound k (j ∷ ks) s h =
      remove_others-Sound k ks (remove_other f k j s) (remove_other-Sound k j s h)

  swap_added-Sound :
      (k : Text) (ks : List Text) (s : Supervisor) (o : Option SupervisorError)
      → Sound s
      → Sound (swap_added f k ks (s, o)).0
  swap_added-Sound k ks s (some e) h = h
  swap_added-Sound k ks s none h = remove_others-Sound k ks s h

  swap-Sound : (s : Supervisor) (k : Text) → Sound s → Sound (swap c w f s k).0
  unfolding swap
  swap-Sound s k h = elim (Option-cases (resolve_target w k)) [
    | inl e ↦ rw e h
    | inr (a, e) ↦ elim (Bool-cases (is_some (find name_of k s.pipelines))) [
      | inl o ↦ rw (e, o) (remove_others-Sound k (map name_of s.pipelines) s h)
      | inr o ↦
          rw (e, o)
            (swap_added-Sound k (map name_of s.pipelines) (add_target c w f s k).0
              (add_target c w f s k).1 (add-Sound s k h))
    ]
  ]

  reresolve-Sound : (s : Supervisor) (k : Text) → Sound s → Sound (reresolve c w s k)
  unfolding reresolve
  reresolve-Sound s k h = elim (Option-cases (resolve_target w k)) [
    | inl e ↦ rw e h
    | inr (a, e) ↦
        rw e (
          rebuild_pipeline-Sound c s h k (some a) none none (resolve_target_unicast w k a e).1 refl)
  ]

  pub request-Sound : (r : Request) (s : Supervisor) → Sound s → Sound (request c w f r s)
  request-Sound (adding k) s h = add-Sound s k h
  request-Sound (removing k) s h = remove-Sound s k h
  request-Sound (swapping k) s h = swap-Sound s k h
  request-Sound (reresolving k) s h = reresolve-Sound s k h
  request-Sound (setting_interval k i) s h = set_interval-Sound s k i h
  request-Sound (setting_thresholds k a b) s h = set_thresholds-Sound s k a b h
  request-Sound (setting_final_hop_only k b) s h = set_final_hop_only-Sound s k b h

  hydrate_rows-Sound :
      (rs : List ActiveTarget) (s : Supervisor)
      → All SoundRow rs
      → Sound s
      → Sound (hydrate_rows c w rs s)
  unfolding hydrate_rows
  hydrate_rows-Sound [] s h k = k
  hydrate_rows-Sound (r ∷ rs) s (h, hs) k =
      hydrate_rows-Sound rs
        (add_pipeline c w s r.target (clamped (row_interval c r.interval_ms)) r.warning_ms
          r.critical_ms r.final_hop_only).0
        hs
        (add_pipeline-Sound c s k w r.target (clamped (row_interval c r.interval_ms)) r.warning_ms
          r.critical_ms r.final_hop_only h)

  hydrate_read-Sound :
      (b : Bool) (t : TargetTables)
      → SoundTables t
      → Sound (hydrate_read c w b (new_supervisor t)).0
  unfolding active_targets
  hydrate_read-Sound true t h = (tt, h)
  hydrate_read-Sound false t h =
      hydrate_rows-Sound (active_targets t) (new_supervisor t)
        (sort-All target_of SoundRow (λ r. r.added_at) t.active h) (tt, h)

  restart-Sound : (s : Supervisor) → Sound s → Sound (restart c w f s)
  unfolding restart hydrate shutdown
  restart-Sound s h = hydrate_read-Sound f.read s.tables h.1

-- Every pipeline probes a unicast IPv4 address at an interval between 200 ms and 60 s, under a target
-- that is not empty, its thresholds are positive and in order where they are set, and so are those of
-- the rows: when this holds, it holds after any requests and restarts, whatever the resolver answers
-- and whichever reads and writes of the tables fail.
pub run_all-Sound :
    (c : ProbeConfig) (es : List (World × TargetFaults × Option Request)) (s : Supervisor)
    → Sound s
    → Sound (run_all c es s)
unfolding run_all
run_all-Sound c [] s h = h
run_all-Sound c ((w, f, none) ∷ es) s h =
    run_all-Sound c es (restart c w f s) (restart-Sound c w f s h)
run_all-Sound c ((w, f, some r) ∷ es) s h =
    run_all-Sound c es (request c w f r s) (request-Sound c w f r s h)

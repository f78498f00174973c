-- ===== src/Supervisor/MirrorRequests.antt =====
-- Every request to the supervisor (cmd/hoptrail/supervisor.go) keeps the mirror.
use hoptrail.Common.{
  ◌≡◌, refl, sym, ap, ◌∙◌, inl, inr, Bool, true, false, Option, none, some, if◌then◌else◌,
  Bool-cases, Option-cases,
}
use hoptrail.Common.Int.{ℤ, quotient}
use hoptrail.Common.Addr.{Addr}
use hoptrail.Common.Keyed.{
  is_some-found, mapped, find-erase, Distinct, erase-Distinct, change-Distinct, find, change,
  is_some,
}
use hoptrail.Common.Everywhere.{found-All}
use hoptrail.Common.Text.{Text, is_blank, text_eq}
use hoptrail.Storage.ActiveTargets.{
  target_of, with_interval, with_thresholds, with_final_hop_only, set_active_target_interval,
  set_active_target_thresholds, set_active_target_final_hop_only, remove_active_target,
}
use hoptrail.Supervisor.Resolve.{World, resolve_target}
use hoptrail.Supervisor.Pipelines.{
  ProbeConfig, Supervisor, name_of, out_of_range, Rebuilt, unchanged, rebuilt, rebuild_failed,
  rebuild_pipeline,
}
use hoptrail.Supervisor.Operations.{
  rebuild_recorded, set_interval, set_final_hop_only, rethresholded, set_thresholds, remove_target,
  reresolve,
}
use hoptrail.Supervisor.Soundness.{are_bad, SoundPipeline}
use hoptrail.Supervisor.Soundness.{settled, SoundPipeline, are_bad}
use hoptrail.Supervisor.Mirror.{
  Settings, settings, row_settings, pipeline_settings, whole_milliseconds, changed, update_settings,
  settings-put, Mirrors, Kept, alike-Mirrors,
}
use hoptrail.Supervisor.Mirroring.{working, rebuild_cases, rebuild_recorded-Mirrors}

abbrev pub MirrorOf : ProbeConfig → Supervisor → Type 0
MirrorOf c s = Distinct target_of s.tables.active × Mirrors c s

module _ (c : ProbeConfig) (w : World) where
  pub set_interval-Mirrors :
      (s : Supervisor) (k : Text) (i : ℤ) → Kept c s → MirrorOf c (set_interval c working s k i).0
  unfolding set_interval set_active_target_interval
  set_interval-Mirrors s k i m = elim (Bool-cases (out_of_range i)) [
    | inl e ↦ rw e (m.1, m.2)
    | inr e ↦ rw e (
        rebuild_recorded-Mirrors c s k (some i) none (with_interval (some (quotient i 1_000_000)))
          (λ x. (quotient i 1_000_000, x.1, x.2, x.3)) m (λ old. refl) (λ r. refl)
          (λ r.
            ap (λ z. (z, r.warning_ms, r.critical_ms, r.final_hop_only)) (whole_milliseconds i e)))
  ]

  pub set_final_hop_only-Mirrors :
      (s : Supervisor) (k : Text) (b : Bool)
      → Kept c s
      → MirrorOf c (set_final_hop_only c working s k b).0
  unfolding set_final_hop_only set_active_target_final_hop_only
  set_final_hop_only-Mirrors s k b m =
      rebuild_recorded-Mirrors c s k none (some b) (with_final_hop_only b) (λ x. (x.0, x.1, x.2, b))
        m (λ old. refl) (λ r. refl) (λ r. refl)

  changed_same : (b : Bool) (o : Option Settings) → changed b (λ x. x) o ≡ o
  changed_same true none = refl
  changed_same true (some x) = refl
  changed_same false o = refl

  rebuild_unrecorded : (p : Supervisor × Rebuilt) → (rebuild_recorded (λ t. t) p).0 ≡ p.0
  rebuild_unrecorded (s, unchanged) = refl
  rebuild_unrecorded (s, rebuilt) = refl
  rebuild_unrecorded (s, rebuild_failed e) = refl

  readdressed-Mirrors :
      (s : Supervisor) (k : Text) (a : Addr)
      → Kept c s
      → MirrorOf c (rebuild_pipeline c s k (some a) none none).0
  readdressed-Mirrors s k a (ps, d, m) =
      rw⁻¹ (rebuild_unrecorded (rebuild_pipeline c s k (some a) none none))
        (elim (rebuild_cases c (λ t. t) s k (some a) none none) [
          | inl e ↦ rw e (d, m)
          | inr (old, e, q) ↦ rw q (
            d,
            λ j.
                settings-put
                  (settled k a old.interval old.warning_ms old.critical_ms old.final_hop_only) old
                  (λ x. x) j s.pipelines e refl
                ∙ changed_same (text_eq k j) (pipeline_settings s j)
                ∙ m j,
          )
        ])

  pub reresolve-Mirrors : (s : Supervisor) (k : Text) → Kept c s → MirrorOf c (reresolve c w s k)
  unfolding reresolve
  reresolve-Mirrors s k m = elim (Option-cases (resolve_target w k)) [
    | inl e ↦ rw e (m.1, m.2)
    | inr (a, e) ↦ rw e (readdressed-Mirrors s k a m)
  ]

  pub set_thresholds-Mirrors :
      (s : Supervisor) (k : Text) (x y : Option ℤ)
      → Kept c s
      → MirrorOf c (set_thresholds working s k x y).0
  unfolding set_thresholds set_active_target_thresholds
  set_thresholds-Mirrors s k x y (ps, d, m) = elim (Bool-cases (are_bad x y)) [
    | inl e ↦ rw e (d, m)
    | inr e ↦ elim (Bool-cases (is_some (find name_of k s.pipelines))) [
      | inr o ↦ rw (e, o) (d, m)
      | inl o ↦
          let q = is_some-found (find name_of k s.pipelines) o in
          let f = found-All name_of SoundPipeline k s.pipelines q.0 q.1 ps.0 in
          let b : is_blank k ≡ false = rw (sym f.1) f.0.0 in
          rw (e, o, b)
            (
              change-Distinct target_of (with_thresholds x y) k s.tables.active (λ r. refl) d,
              alike-Mirrors c s
                  (record s {
                    pipelines = change name_of (rethresholded x y) k s.pipelines;
                    tables = record s.tables {
                      active = change target_of (with_thresholds x y) k s.tables.active;
                    };
                  })
                  (λ z. (z.0, x, y, z.3)) k m
                  (λ j.
                    update_settings name_of settings (rethresholded x y) (λ z. (z.0, x, y, z.3)) j k
                      s.pipelines (λ p. refl) (λ p. refl))
                  (λ j.
                    update_settings target_of (row_settings c) (with_thresholds x y)
                      (λ z. (z.0, x, y, z.3)) j k s.tables.active (λ r. refl) (λ r. refl)),
            )
    ]
  ]

  mapped-without {ℓ} :
      {A : Type ℓ} (v : A → Settings) (b : Bool) (o : Option A)
      → mapped v (if b then none else o) ≡ (if b then none else mapped v o)
  mapped-without v true o = refl
  mapped-without v false o = refl

  pub remove-Mirrors :
      (s : Supervisor) (k : Text) → Kept c s → MirrorOf c (remove_target working s k).0
  unfolding remove_target remove_active_target
  remove-Mirrors s k (ps, d, m) = elim (Bool-cases (is_some (find name_of k s.pipelines))) [
    | inr o ↦ rw o (d, m)
    | inl o ↦ rw o (
      erase-Distinct target_of k s.tables.active d,
      λ j.
          ap (mapped settings) (find-erase name_of j k s.pipelines)
          ∙ mapped-without settings (text_eq k j) (find name_of j s.pipelines)
          ∙ ap (λ z. if text_eq k j then none else z) (m j)
          ∙ sym (mapped-without (row_settings c) (text_eq k j) (find target_of j s.tables.active))
          ∙ sym (ap (mapped (row_settings c)) (find-erase target_of j k s.tables.active)),
    )
  ]

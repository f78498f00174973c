-- ===== src/Supervisor/Mirroring.antt =====
-- The operations of cmd/hoptrail/supervisor.go keep the table of targets a mirror of the pipelines
-- while the store works.
use hoptrail.Common.{
  ◌≡◌, refl, sym, ◌⊎◌, inl, inr, Bool, false, ◌&&◌, Option, none, some, Bool-cases, Option-cases,
}
use hoptrail.Common.Int.{ℤ, pos, ltb_ℤ, same_ℤ}
use hoptrail.Common.Addr.{Addr, is_valid, same}
use hoptrail.Common.Keyed.{Distinct, change-Distinct, find, put, change}
use hoptrail.Common.Everywhere.{found-All}
use hoptrail.Common.Text.{Text, is_blank}
use hoptrail.Storage.ActiveTargets.{ActiveTarget, TargetTables, target_of, set_active_target}
use hoptrail.Supervisor.Pipelines.{
  ProbeConfig, Pipeline, Supervisor, name_of, is_buildable, given, rebuild_pipeline, same_bool,
}
use hoptrail.Supervisor.Operations.{TargetFaults, rebuild_recorded}
use hoptrail.Supervisor.Soundness.{SoundPipeline}
use hoptrail.Supervisor.Soundness.{settled, SoundPipeline}
use hoptrail.Supervisor.Mirror.{
  Settings, settings, row_settings, update_settings, settings-put, Mirrors, Kept, alike-Mirrors,
}

abbrev pub working : TargetFaults
working = record { read = false; add = false; remember = false; set = false; remove = false }

-- A rebuild leaves everything, or puts in the pipeline with its new settings.
pub rebuild_cases :
    (c : ProbeConfig) (write : TargetTables → TargetTables) (s : Supervisor) (k : Text)
    (a : Option Addr) (i : Option ℤ) (b : Option Bool)
    → (rebuild_recorded write (rebuild_pipeline c s k a i b)).0 ≡ s
      ⊎ ((old : Pipeline) × (find name_of k s.pipelines ≡ some old)
          × ((rebuild_recorded write (rebuild_pipeline c s k a i b)).0 ≡ record s {
            pipelines =
                put name_of
                  (settled k
                    (given a old.addr)
                    (given i old.interval)
                    old.warning_ms
                    old.critical_ms
                    (given b old.final_hop_only))
                  s.pipelines;
            tables = write s.tables;
          }))
unfolding rebuild_pipeline
rebuild_cases c write s k a i b = elim (Option-cases (find name_of k s.pipelines)) [
  | inl e ↦ inl (rw e refl)
  | inr (old, e) ↦
      elim (Bool-cases (
        same (given a old.addr) old.addr
        && same_ℤ (given i old.interval) old.interval
        && same_bool (given b old.final_hop_only) old.final_hop_only)) [
          | inl f ↦ inl (rw (e, f) refl)
          | inr f ↦
              elim (Bool-cases (
                is_valid (given a old.addr)
                && is_buildable c
                && ltb_ℤ (pos 0) (given i old.interval))) [
                  | inl v ↦ inr (old, e, rw (e, f, v) refl)
                  | inr v ↦ inl (rw (e, f, v) refl)
                ]
        ]
]

pub set_active_target-found :
    (g : ActiveTarget → ActiveTarget) (k : Text) (t : TargetTables)
    → is_blank k ≡ false
    → (set_active_target false g k t).active ≡ change target_of g k t.active
set_active_target-found g k t h = rw h refl

-- A change of the settings that is rebuilt and written.
pub rebuild_recorded-Mirrors :
    (c : ProbeConfig) (s : Supervisor) (k : Text) (i : Option ℤ) (b : Option Bool)
    (h : ActiveTarget → ActiveTarget) (g : Settings → Settings)
    → Kept c s
    → ((old : Pipeline)
        → settings (
            settled k old.addr
              (given i old.interval)
              old.warning_ms
              old.critical_ms
              (given b old.final_hop_only))
          ≡ g (settings old))
    → ((r : ActiveTarget) → target_of (h r) ≡ target_of r)
    → ((r : ActiveTarget) → row_settings c (h r) ≡ g (row_settings c r))
    → let t =
        (rebuild_recorded (set_active_target false h k) (rebuild_pipeline c s k none i b)).0 in
      Distinct target_of t.tables.active × Mirrors c t
rebuild_recorded-Mirrors c s k i b h g (ps, d, m) hp ht hr =
    elim (rebuild_cases c (set_active_target false h k) s k none i b) [
      | inl e ↦ rw e (d, m)
      | inr (old, e, q) ↦
          let f = found-All name_of SoundPipeline k s.pipelines old e ps.0 in
          let w = set_active_target-found h k s.tables (rw (sym f.1) f.0.0) in
          rw (q, w)
            (
              change-Distinct target_of h k s.tables.active ht d,
              alike-Mirrors c s
                  (record s {
                    pipelines =
                        put name_of
                          (settled k old.addr (given i old.interval) old.warning_ms old.critical_ms
                            (given b old.final_hop_only))
                          s.pipelines;
                    tables = record s.tables { active = change target_of h k s.tables.active };
                  })
                  g k m
                  (λ j.
                    settings-put
                      (settled k old.addr (given i old.interval) old.warning_ms old.critical_ms
                        (given b old.final_hop_only))
                      old g j s.pipelines e (hp old))
                  (λ j. update_settings target_of (row_settings c) h g j k s.tables.active ht hr),
            )
    ]

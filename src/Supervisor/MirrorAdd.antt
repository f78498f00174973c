-- ===== src/Supervisor/MirrorAdd.antt =====
-- A target that comes up in cmd/hoptrail/supervisor.go, and its row.
use hoptrail.Common.{
  ℕ, ◌≡◌, refl, sym, ap, ap₂, ◌∙◌, ◌⊎◌, inl, inr, Bool, true, false, ◌&&◌, Option, none, some,
  arith, if◌then◌else◌, Bool-cases, Option-cases,
}
use hoptrail.Common.Int.{ℤ, pos, ltb_ℤ, quotient}
use hoptrail.Common.Addr.{Addr, is_valid}
use hoptrail.Common.Keyed.{mapped, find-put, put-Distinct, find, put, is_some}
use hoptrail.Common.Text.{Text, is_blank, text_eq}
use hoptrail.Storage.ActiveTargets.{TargetTables, target_of, added_row, add_active_target}
use hoptrail.Supervisor.Resolve.{World, resolve_target}
use hoptrail.Supervisor.Pipelines.{
  ProbeConfig, Supervisor, SupervisorError, unresolved, interval_out_of_range, already_monitored,
  build_failed, name_of, is_buildable, out_of_range, add_pipeline,
}
use hoptrail.Supervisor.Operations.{add_target}
use hoptrail.Supervisor.Soundness.{resolve_target_unicast}
use hoptrail.Supervisor.Soundness.{settled}
use hoptrail.Supervisor.SoundTables.{active-remember_target}
use hoptrail.Supervisor.Mirror.{Settings, settings, row_settings, clamped-in_range, Kept}
use hoptrail.Supervisor.Mirroring.{working}
use hoptrail.Supervisor.MirrorRequests.{MirrorOf}

pub is_some-none {ℓ} : {A : Type ℓ} (o : Option A) → is_some o ≡ false → o ≡ none
is_some-none none h = refl
is_some-none (some a) h = absurd (ground arith)

-- A pipeline comes up, or there is an error and nothing changes.
pub add_pipeline_cases :
    (c : ProbeConfig) (w : World) (s : Supervisor) (k : Text) (i : ℤ) (x y : Option ℤ) (b : Bool)
    → ((e : SupervisorError) × (add_pipeline c w s k i x y b ≡ (s, some e)))
      ⊎ ((a : Addr) × (resolve_target w k ≡ some a)
          × (out_of_range i ≡ false)
          × (find name_of k s.pipelines ≡ none)
          × (add_pipeline c w s k i x y b
              ≡ (record s { pipelines = put name_of (settled k a i x y b) s.pipelines }, none)))
unfolding add_pipeline
add_pipeline_cases c w s k i x y b = elim (Option-cases (resolve_target w k)) [
  | inl e ↦ inl (unresolved, rw e refl)
  | inr (a, e) ↦ elim (Bool-cases (out_of_range i)) [
    | inl o ↦ inl (interval_out_of_range, rw (e, o) refl)
    | inr o ↦ elim (Bool-cases (is_some (find name_of k s.pipelines))) [
      | inl f ↦ inl (already_monitored, rw (e, o, f) refl)
      | inr f ↦ elim (Bool-cases (is_valid a && is_buildable c && ltb_ℤ (pos 0) i)) [
        | inr v ↦ inl (build_failed, rw (e, o, f, v) refl)
        | inl v ↦ inr (a, e, o, is_some-none (find name_of k s.pipelines) f, rw (e, o, f, v) refl)
      ]
    ]
  ]
]

mapped-none {ℓ} : {A : Type ℓ} (v : A → Settings) (o : Option A) → none ≡ mapped v o → o ≡ none
mapped-none v none h = refl
mapped-none v (some a) h = absurd (ground arith)

pub mapped-some_or {ℓ} :
    {A : Type ℓ} (v : A → Settings) (b : Bool) (a : A) (o : Option A)
    → mapped v (if b then some a else o) ≡ (if b then some (v a) else mapped v o)
mapped-some_or v true a o = refl
mapped-some_or v false a o = refl

add_active_target-new :
    (now : ℕ) (k : Text) (t : TargetTables)
    → is_blank k ≡ false
    → find target_of k t.active ≡ none
    → (add_active_target false now k t).active ≡ put target_of (added_row now k none) t.active
unfolding add_active_target
add_active_target-new now k t b e = rw (b, e) refl

module _ (c : ProbeConfig) (w : World) where
  pub add-Mirrors :
      (s : Supervisor) (k : Text) → Kept c s → MirrorOf c (add_target c w working s k).0
  unfolding add_target
  add-Mirrors s k (ps, d, m) = elim (add_pipeline_cases c w s k c.interval none none false) [
    | inl (e, q) ↦ rw q (d, m)
    | inr (a, e, o, f, q) ↦
        let n =
          mapped-none (row_settings c) (find target_of k s.tables.active)
            (sym (ap (mapped settings) f) ∙ m k) in
        let b = (resolve_target_unicast w k a e).0 in
        rw
          (
            q,
            active-remember_target false w.now k (add_active_target false w.now k s.tables),
            add_active_target-new w.now k s.tables b n,
          )
          (
            put-Distinct target_of (added_row w.now k none) s.tables.active d,
            λ j.
                ap (mapped settings)
                  (find-put name_of j (settled k a c.interval none none false) s.pipelines)
                ∙ mapped-some_or settings (text_eq k j) (settled k a c.interval none none false)
                    (find name_of j s.pipelines)
                ∙ ap₂
                    (λ (y : ℤ) (z : Option Settings).
                      if text_eq k j then some (quotient y 1_000_000, none, none, false) else z)
                    (sym (clamped-in_range c.interval o)) (m j)
                ∙ sym (
                    mapped-some_or (row_settings c) (text_eq k j) (added_row w.now k none)
                      (find target_of j s.tables.active))
                ∙ sym (
                    ap (mapped (row_settings c))
                      (find-put target_of j (added_row w.now k none) s.tables.active)),
          )
  ]

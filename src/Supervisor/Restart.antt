-- ===== src/Supervisor/Restart.antt =====
-- A restart of the daemon brings the targets back (`Hydrate` of cmd/hoptrail/supervisor.go).
use hoptrail.Common.{
  ◌≡◌, refl, sym, ap, ◌∙◌, inl, inr, Bool, true, false, Option, none, some, List, [], ◌∷◌, All,
  arith, if◌then◌else◌, Bool-cases,
}
use hoptrail.Common.Int.{ℤ, pos, negsuc, ltb_ℤ}
use hoptrail.Common.Addr.{Addr, invalid, host, is_valid}
use mathlib.Core.Path.{subst}
use hoptrail.Common.Keyed.{is_some-found, find-sort, mapped, find-put, find, is_some}
use hoptrail.Common.Everywhere.{sort-All}
use hoptrail.Common.Text.{Text, text_eq, text_eq_iff}
use hoptrail.Storage.ActiveTargets.{ActiveTarget, target_of, active_targets}
use hoptrail.Supervisor.Resolve.{World, first_some, resolve_target}
use hoptrail.Supervisor.Pipelines.{
  ProbeConfig, Supervisor, name_of, is_buildable, out_of_range, add_pipeline,
}
use hoptrail.Supervisor.Operations.{clamped, row_interval, hydrate_rows, hydrate, shutdown}
use hoptrail.Supervisor.Runs.{Request, new_supervisor, first_supervisor, restart}
use hoptrail.Supervisor.Soundness.{is_unicast, resolve_target_unicast}
use hoptrail.Supervisor.Soundness.{settled}
use hoptrail.Supervisor.Mirror.{
  Settings, settings, row_settings, pipeline_settings, in_range-clamped, Kept,
}
use hoptrail.Supervisor.Mirroring.{working}
use hoptrail.Supervisor.MirrorAdd.{is_some-none, mapped-some_or}
use hoptrail.Supervisor.KeptRuns.{requests, requests-Kept}

unicast-valid : (a : Addr) → is_unicast a ≡ true → is_valid a ≡ true
unicast-valid invalid h = h
unicast-valid (host n) h = refl

in_range-positive : (i : ℤ) → out_of_range i ≡ false → ltb_ℤ (pos 0) i ≡ true
in_range-positive (pos n) h = ground arith
in_range-positive (negsuc n) h = ground arith

first_some-none {ℓ} : {A : Type ℓ} (o : Option A) → first_some o none ≡ o
first_some-none none = refl
first_some-none (some a) = refl

first_some-first_some {ℓ} :
    {A : Type ℓ} (p o : Option A) (b : Bool) (a : A)
    → first_some (first_some p (if b then some a else none)) o
      ≡ first_some p (if b then some a else o)
first_some-first_some none o true a = refl
first_some-first_some none o false a = refl
first_some-first_some (some x) o b a = refl

some-first_some {ℓ} :
    {A : Type ℓ} (v : A → Settings) (o : Option A) (p : Option Settings)
    → is_some o ≡ true
    → mapped v o ≡ first_some (mapped v o) p
some-first_some v none p h = absurd (ground arith)
some-first_some v (some a) p h = refl

-- The resolver answers for the target of a row.
abbrev pub Resolves : World → ActiveTarget → Type 0
Resolves w r = is_some (resolve_target w r.target) ≡ true

module _ (c : ProbeConfig) (w : World) (built : is_buildable c ≡ true) where
  hydrate_row :
      (r : ActiveTarget) (s : Supervisor) (k : Text)
      → Resolves w r
      → pipeline_settings
          (add_pipeline c w s r.target
            (clamped (row_interval c r.interval_ms))
            r.warning_ms
            r.critical_ms
            r.final_hop_only).0
          k
        ≡ first_some
            (pipeline_settings s k)
            (if text_eq r.target k then some (row_settings c r) else none)
  unfolding add_pipeline
  hydrate_row r s k h =
      let i : ℤ = clamped (row_interval c r.interval_ms) in
      let o = in_range-clamped (row_interval c r.interval_ms) in
      let q = is_some-found (resolve_target w r.target) h in
      let v = unicast-valid q.0 (resolve_target_unicast w r.target q.0 q.1).1 in
      elim (Bool-cases (is_some (find name_of r.target s.pipelines))) [
        | inl f ↦
            rw (q.1, o, f)
              (elim (Bool-cases (text_eq r.target k)) [
                | inl t ↦
                    some-first_some settings (find name_of k s.pipelines)
                      (if text_eq r.target k then some (row_settings c r) else none)
                      (subst (λ z. is_some (find name_of z s.pipelines) ≡ true)
                        ((text_eq_iff r.target k).0 t) f)
                | inr t ↦ rw t (sym (first_some-none (pipeline_settings s k)))
              ])
        | inr f ↦
            rw (q.1, o, f, v, built, in_range-positive i o)
              (ap (mapped settings) (
                  find-put name_of k
                    (settled r.target q.0 i r.warning_ms r.critical_ms r.final_hop_only)
                    s.pipelines)
                ∙ mapped-some_or settings (text_eq r.target k)
                    (settled r.target q.0 i r.warning_ms r.critical_ms r.final_hop_only)
                    (find name_of k s.pipelines)
                ∙ elim (Bool-cases (text_eq r.target k)) [
                  | inl t ↦
                      rw
                        (
                          t,
                          sym ((text_eq_iff r.target k).0 t),
                          is_some-none (find name_of r.target s.pipelines) f,
                        )
                        refl
                  | inr t ↦ rw t (sym (first_some-none (pipeline_settings s k)))
                ])
      ]

  hydrate_rows-settings :
      (rs : List ActiveTarget) (s : Supervisor) (k : Text)
      → All (Resolves w) rs
      → pipeline_settings (hydrate_rows c w rs s) k
        ≡ first_some (pipeline_settings s k) (mapped (row_settings c) (find target_of k rs))
  unfolding hydrate_rows find
  hydrate_rows-settings [] s k h = sym (first_some-none (pipeline_settings s k))
  hydrate_rows-settings (r ∷ rs) s k (h, hs) =
      hydrate_rows-settings rs
        (add_pipeline c w s r.target (clamped (row_interval c r.interval_ms)) r.warning_ms
          r.critical_ms r.final_hop_only).0
        k hs
      ∙ ap (λ z. first_some z (mapped (row_settings c) (find target_of k rs))) (hydrate_row r s k h)
      ∙ first_some-first_some (pipeline_settings s k)
          (mapped (row_settings c) (find target_of k rs)) (text_eq r.target k) (row_settings c r)
      ∙ ap (first_some (pipeline_settings s k))
          (sym (mapped-some_or (row_settings c) (text_eq r.target k) r (find target_of k rs)))

  restart-settings :
      (s : Supervisor) (k : Text)
      → Kept c s
      → All (Resolves w) s.tables.active
      → pipeline_settings (restart c w working s) k ≡ pipeline_settings s k
  unfolding restart hydrate active_targets shutdown find
  restart-settings s k (sound, d, m) h =
      hydrate_rows-settings (active_targets s.tables) (new_supervisor s.tables) k
        (sort-All target_of (Resolves w) (λ r. r.added_at) s.tables.active h)
      ∙ ap (mapped (row_settings c)) (find-sort target_of (λ r. r.added_at) k s.tables.active d)
      ∙ sym (m k)

-- After any requests from an empty database on, while the store works and whatever the resolver
-- answers, a restart of the daemon brings the same targets back: each has a pipeline after the restart
-- exactly if it had one before, at the same interval in whole milliseconds, with the same thresholds
-- and the same final-hop mode. The configuration has to be one that pipelines can be built with, and
-- the resolver has to answer for each stored target during the restart.
pub restart-requests :
    (c : ProbeConfig) (rs : List (World × Request)) (w : World)
    → is_buildable c ≡ true
    → All (Resolves w) (requests c rs first_supervisor).tables.active
    → (k : Text)
    → pipeline_settings (restart c w working (requests c rs first_supervisor)) k
      ≡ pipeline_settings (requests c rs first_supervisor) k
unfolding find
restart-requests c rs w built h k =
    restart-settings c w built (requests c rs first_supervisor) k
      (requests-Kept c rs first_supervisor ((tt, tt), tt, λ j. refl)) h

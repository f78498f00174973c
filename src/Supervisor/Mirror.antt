-- ===== src/Supervisor/Mirror.antt =====
-- The table of targets mirrors the pipelines (cmd/hoptrail/supervisor.go) while the store works.
use hoptrail.Common.{
  ◌≤◌, ◌*◌, ◌/◌, ℕ, ◌≡◌, refl, sym, ap, ◌∙◌, inl, inr, Bool, true, false, Option, none, some, List,
  arith, if◌then◌else◌, Bool-cases,
}
use hoptrail.Common.Int.{ℤ, pos, negsuc, ltb_ℤ, quotient}
use hoptrail.Common.Keyed.{mapped, find-put, find-change, Distinct, find, put, change}
use hoptrail.Common.Text.{Text, text_eq, text_eq_iff}
use hoptrail.Storage.ActiveTargets.{ActiveTarget, target_of}
use hoptrail.Supervisor.Pipelines.{
  ProbeConfig, Pipeline, Supervisor, min_probe_interval, max_probe_interval, name_of, out_of_range,
}
use hoptrail.Supervisor.Operations.{clamped, duration_ms, row_interval}
use hoptrail.Supervisor.Soundness.{Sound}
use hoptrail.Supervisor.Soundness.{Sound}

-- The settings of a target, its interval in whole milliseconds: those of its pipeline, and those that
-- its row stands for.
abbrev pub Settings : Type 0
Settings = ℤ × Option ℤ × Option ℤ × Bool

abbrev pub settings : Pipeline → Settings
settings p = (quotient p.interval 1_000_000, p.warning_ms, p.critical_ms, p.final_hop_only)

abbrev pub row_settings : ProbeConfig → ActiveTarget → Settings
row_settings c r = (
  quotient (clamped (row_interval c r.interval_ms)) 1_000_000,
  r.warning_ms,
  r.critical_ms,
  r.final_hop_only,
)

abbrev pub pipeline_settings : Supervisor → Text → Option Settings
pipeline_settings s k = mapped settings (find name_of k s.pipelines)

abbrev pub stored_settings : ProbeConfig → Supervisor → Text → Option Settings
stored_settings c s k = mapped (row_settings c) (find target_of k s.tables.active)

pub clamped-in_range : (i : ℤ) → out_of_range i ≡ false → clamped i ≡ i
clamped-in_range i h = ground arith

pub in_range-clamped : (i : ℤ) → out_of_range (clamped i) ≡ false
in_range-clamped i = elim (Bool-cases (ltb_ℤ i min_probe_interval)) [
  | inl e ↦ rw e refl
  | inr e ↦ elim (Bool-cases (ltb_ℤ max_probe_interval i)) [
    | inl f ↦ rw (e, f) refl
    | inr f ↦ rw (e, f) (rw (e, f) refl)
  ]
]

duration_small : (m : ℕ) → m ≤ 60_000 → duration_ms (pos m) ≡ pos (m * 1_000_000)
duration_small m h = ground arith

pub whole_milliseconds :
    (i : ℤ)
    → out_of_range i ≡ false
    → quotient (clamped (duration_ms (quotient i 1_000_000))) 1_000_000 ≡ quotient i 1_000_000
whole_milliseconds (pos n) h =
    rw
      (
        duration_small (n / 1_000_000) (ground arith),
        clamped-in_range (pos (n / 1_000_000 * 1_000_000)) (ground arith),
      )
      (ap pos (omega arith))
whole_milliseconds (negsuc n) h = absurd (ground arith)

-- The settings of one target change.
abbrev pub changed : Bool → (Settings → Settings) → Option Settings → Option Settings
changed b g o = if b then mapped g o else o

mapped-changed {ℓ} :
    {A : Type ℓ} (v : A → Settings) (h : A → A) (g : Settings → Settings) (b : Bool) (o : Option A)
    → ((x : A) → v (h x) ≡ g (v x))
    → mapped v (if b then mapped h o else o) ≡ changed b g (mapped v o)
mapped-changed v h g true none e = refl
mapped-changed v h g true (some x) e = ap some (e x)
mapped-changed v h g false o e = refl

pub update_settings {ℓ} :
    {A : Type ℓ} (key : A → Text) (v : A → Settings) (h : A → A) (g : Settings → Settings)
    (k j : Text) (xs : List A)
    → ((x : A) → key (h x) ≡ key x)
    → ((x : A) → v (h x) ≡ g (v x))
    → mapped v (find key k (change key h j xs)) ≡ changed (text_eq j k) g (mapped v (find key k xs))
update_settings key v h g k j xs i e =
    ap (mapped v) (find-change key h k j xs i)
    ∙ mapped-changed v h g (text_eq j k) (find key k xs) e

pub settings-put :
    (p old : Pipeline) (g : Settings → Settings) (k : Text) (ps : List Pipeline)
    → find name_of p.target ps ≡ some old
    → settings p ≡ g (settings old)
    → mapped settings (find name_of k (put name_of p ps))
      ≡ changed (text_eq p.target k) g (mapped settings (find name_of k ps))
settings-put p old g k ps h e =
    ap (mapped settings) (find-put name_of k p ps) ∙ elim (Bool-cases (text_eq p.target k)) [
      | inl t ↦ rw (t, sym ((text_eq_iff p.target k).0 t), h) (ap some e)
      | inr t ↦ rw t refl
    ]

abbrev pub Mirrors : ProbeConfig → Supervisor → Type 0
Mirrors c s = (k : Text) → pipeline_settings s k ≡ stored_settings c s k

abbrev pub Kept : ProbeConfig → Supervisor → Type 0
Kept c s = Sound s × Distinct target_of s.tables.active × Mirrors c s

-- Where the pipelines and the rows change alike, the mirror stays.
pub alike-Mirrors :
    (c : ProbeConfig) (s t : Supervisor) (g : Settings → Settings) (j : Text)
    → Mirrors c s
    → ((k : Text) → pipeline_settings t k ≡ changed (text_eq j k) g (pipeline_settings s k))
    → ((k : Text) → stored_settings c t k ≡ changed (text_eq j k) g (stored_settings c s k))
    → Mirrors c t
alike-Mirrors c s t g j m p r k = p k ∙ ap (changed (text_eq j k) g) (m k) ∙ sym (r k)

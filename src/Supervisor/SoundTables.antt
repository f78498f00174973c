-- ===== src/Supervisor/SoundTables.antt =====
-- The writes of cmd/hoptrail/supervisor.go to the tables of targets keep their rows sound.
use hoptrail.Common.{ℕ, ◌≡◌, refl, inl, inr, Bool, Option, none, some, All, Bool-cases}
use hoptrail.Common.Keyed.{find}
use hoptrail.Common.Everywhere.{put-All, erase-All, change-All, found-All}
use hoptrail.Common.Text.{Text, is_blank}
use hoptrail.Storage.ActiveTargets.{
  ActiveTarget, TargetTables, target_of, added_row, set_active_target, remember_target,
  add_active_target, remove_active_target,
}
use hoptrail.Supervisor.Resolve.{World}
use hoptrail.Supervisor.Pipelines.{
  Supervisor, SupervisorError, Rebuilt, unchanged, rebuilt, rebuild_failed,
}
use hoptrail.Supervisor.Operations.{TargetFaults, add_recorded, rebuild_recorded}
use hoptrail.Supervisor.Soundness.{SoundRow, Sound}

abbrev pub SoundTables : TargetTables → Type 0
SoundTables t = All SoundRow t.active

pub set_active_target-Sound :
    (fails : Bool) (g : ActiveTarget → ActiveTarget) (k : Text) (t : TargetTables)
    → ((r : ActiveTarget) → SoundRow r → SoundRow (g r))
    → SoundTables t
    → SoundTables (set_active_target fails g k t)
set_active_target-Sound fails g k t h st = elim (Bool-cases (is_blank k)) [
  | inl b ↦ rw b st
  | inr b ↦ elim (Bool-cases fails) [
    | inl e ↦ rw (b, e) st
    | inr e ↦ rw (b, e) (change-All target_of SoundRow g k t.active h st)
  ]
]

added_row-Sound :
    (now : ℕ) (k : Text) (t : TargetTables) (o : Option ActiveTarget)
    → find target_of k t.active ≡ o
    → SoundTables t
    → SoundRow (added_row now k o)
added_row-Sound now k t none e st = refl
added_row-Sound now k t (some r) e st = (found-All target_of SoundRow k t.active r e st).0

add_active_target-Sound :
    (fails : Bool) (now : ℕ) (k : Text) (t : TargetTables)
    → SoundTables t
    → SoundTables (add_active_target fails now k t)
unfolding add_active_target
add_active_target-Sound fails now k t st = elim (Bool-cases (is_blank k)) [
  | inl b ↦ rw b st
  | inr b ↦ elim (Bool-cases fails) [
    | inl e ↦ rw (b, e) st
    | inr e ↦
        rw (b, e)
          (put-All target_of SoundRow (added_row now k (find target_of k t.active)) t.active
            (added_row-Sound now k t (find target_of k t.active) refl st) st)
  ]
]

pub active-remember_target :
    (fails : Bool) (now : ℕ) (k : Text) (t : TargetTables)
    → (remember_target fails now k t).active ≡ t.active
unfolding remember_target
active-remember_target fails now k t = elim (Bool-cases (is_blank k)) [
  | inl b ↦ rw b refl
  | inr b ↦ elim (Bool-cases fails) [ inl e ↦ rw (b, e) refl | inr e ↦ rw (b, e) refl ]
]

pub remove_active_target-Sound :
    (fails : Bool) (k : Text) (t : TargetTables)
    → SoundTables t
    → SoundTables (remove_active_target fails k t)
unfolding remove_active_target
remove_active_target-Sound fails k t st = elim (Bool-cases fails) [
  | inl e ↦ rw e st
  | inr e ↦ rw e (erase-All target_of SoundRow k t.active st)
]

pub add_recorded-Sound :
    (w : World) (f : TargetFaults) (k : Text) (s : Supervisor) (e : Option SupervisorError)
    → Sound s
    → Sound (add_recorded w f k (s, e)).0
add_recorded-Sound w f k s (some e) h = h
add_recorded-Sound w f k s none h = (
  h.0,
  rw (active-remember_target f.remember w.now k (add_active_target f.add w.now k s.tables))
      (add_active_target-Sound f.add w.now k s.tables h.1),
)

pub rebuild_recorded-Sound :
    (write : TargetTables → TargetTables) (s : Supervisor) (o : Rebuilt)
    → ((t : TargetTables) → SoundTables t → SoundTables (write t))
    → Sound s
    → Sound (rebuild_recorded write (s, o)).0
rebuild_recorded-Sound write s unchanged h k = k
rebuild_recorded-Sound write s rebuilt h k = (k.0, h s.tables k.1)
rebuild_recorded-Sound write s (rebuild_failed e) h k = k

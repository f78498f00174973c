-- ===== src/Storage/ActiveTargets.antt =====
-- internal/storage/storage.go: the targets that are monitored, with their overrides, and those that
-- once were. Times are unix milliseconds.
use hoptrail.Common.{ℕ, Bool, false, Option, none, some, List, if◌then◌else◌}
use hoptrail.Common.Int.{ℤ}
use hoptrail.Common.Keyed.{find, put, erase, change, sort}
use hoptrail.Common.Text.{Text, is_blank}

pub record ActiveTarget : Type 0 where
  pub target : Text
  pub added_at : ℕ
  pub interval_ms : Option ℤ
  pub warning_ms : Option ℤ
  pub critical_ms : Option ℤ
  pub final_hop_only : Bool

pub record Remembered : Type 0 where
  pub target : Text
  pub last_added_at : ℕ

pub record TargetTables : Type 0 where
  pub active : List ActiveTarget
  pub history : List Remembered

abbrev pub target_of : ActiveTarget → Text
target_of r = r.target

unfoldable pub remember_target : Bool → ℕ → Text → TargetTables → TargetTables
unfolding put
remember_target fails now k t = if is_blank k then t else if fails then t else record t {
  history = put (λ r. r.target) (record { target = k; last_added_at = now }) t.history;
}

-- `ORDER BY added_at ASC`
unfoldable pub active_targets : TargetTables → List ActiveTarget
unfolding sort
active_targets t = sort target_of (λ r. r.added_at) t.active

-- `ON CONFLICT(target) DO UPDATE`: the overrides of a row that is there stay.
abbrev pub added_row : ℕ → Text → Option ActiveTarget → ActiveTarget
added_row now k none = record {
  target = k;
  added_at = now;
  interval_ms = none;
  warning_ms = none;
  critical_ms = none;
  final_hop_only = false;
}
added_row now k (some r) = record r { target = k; added_at = now }

unfoldable pub add_active_target : Bool → ℕ → Text → TargetTables → TargetTables
unfolding put find
add_active_target fails now k t =
    if is_blank k
    then t
    else if fails
    then t
    else record t { active = put target_of (added_row now k (find target_of k t.active)) t.active }

-- An change of the row of the target; no row is an error, and then nothing has changed.
abbrev pub set_active_target :
    Bool → (ActiveTarget → ActiveTarget) → Text → TargetTables → TargetTables
set_active_target fails g k t =
    if is_blank k
    then t
    else if fails
    then t
    else record t { active = change target_of g k t.active }

abbrev pub with_interval : Option ℤ → ActiveTarget → ActiveTarget
with_interval interval_ms r = record r { interval_ms = interval_ms }

unfoldable pub set_active_target_interval : Bool → Option ℤ → Text → TargetTables → TargetTables
unfolding change
set_active_target_interval fails interval_ms = set_active_target fails (with_interval interval_ms)

abbrev pub with_thresholds : Option ℤ → Option ℤ → ActiveTarget → ActiveTarget
with_thresholds warning_ms critical_ms r = record r {
  warning_ms = warning_ms;
  critical_ms = critical_ms;
}

unfoldable pub set_active_target_thresholds :
    Bool → Option ℤ → Option ℤ → Text → TargetTables → TargetTables
unfolding change
set_active_target_thresholds fails warning_ms critical_ms =
    set_active_target fails (with_thresholds warning_ms critical_ms)

abbrev pub with_final_hop_only : Bool → ActiveTarget → ActiveTarget
with_final_hop_only final_hop_only r = record r { final_hop_only = final_hop_only }

unfoldable pub set_active_target_final_hop_only : Bool → Bool → Text → TargetTables → TargetTables
unfolding change
set_active_target_final_hop_only fails final_hop_only =
    set_active_target fails (with_final_hop_only final_hop_only)

unfoldable pub remove_active_target : Bool → Text → TargetTables → TargetTables
unfolding erase
remove_active_target fails k t =
    if fails then t else record t { active = erase target_of k t.active }

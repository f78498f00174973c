-- ===== src/Storage/ProbeUpdates.antt =====
-- internal/storage/probeupdates.go: the table of the updates that the central has commanded, one row
-- for each probe. Times are unix milliseconds.
use hoptrail.Common.{
  ℕ, ◌+◌, Bool, true, false, ◌||◌, Option, none, some, List, [], ◌∷◌, if◌then◌else◌,
}
use hoptrail.Common.Text.{Text, text_eq, is_blank}

pub data UpdateState : Type 0 where
  pending applying applied failed : UpdateState

pub record ProbeUpdate : Type 0 where
  pub probe_id : Text
  pub target_version : Text
  pub arch : Text
  pub sha256 : Text
  pub state : UpdateState
  pub error : Text
  pub deliveries : ℕ
  pub requested_at : ℕ
  pub updated_at : ℕ

unfoldable pub find_update : Text → List ProbeUpdate → Option ProbeUpdate
find_update k [] = none
find_update k (u ∷ us) =
    let rest = find_update k us in if text_eq u.probe_id k then some u else rest

unfoldable pub clear_update : Text → List ProbeUpdate → List ProbeUpdate
clear_update k [] = []
clear_update k (u ∷ us) =
    let rest = clear_update k us in if text_eq u.probe_id k then rest else u ∷ rest

-- `INSERT OR REPLACE`; the second result is false on an error.
unfoldable pub command_probe_update :
    Bool → List ProbeUpdate → ProbeUpdate → List ProbeUpdate × Bool
unfolding clear_update
command_probe_update fails us u =
    if is_blank u.probe_id || is_blank u.target_version || is_blank u.sha256 || is_blank u.arch
    then (us, false)
    else if fails
    then (us, false)
    else (
      record u { state = pending; error = []; deliveries = 0; updated_at = u.requested_at }
          ∷ clear_update u.probe_id us,
      true,
    )

-- The rows of the probe after an `UPDATE`.
unfoldable pub update_rows :
    (ProbeUpdate → ProbeUpdate) → Text → List ProbeUpdate → List ProbeUpdate
update_rows g k [] = []
update_rows g k (u ∷ us) = (if text_eq u.probe_id k then g u else u) ∷ update_rows g k us

abbrev pub is_some {ℓ} : {A : Type ℓ} → Option A → Bool
is_some none = false
is_some (some a) = true

abbrev pub moved : UpdateState → Text → ℕ → ProbeUpdate → ProbeUpdate
moved state error at u = record u { state = state; error = error; updated_at = at }

-- No row is an error.
unfoldable pub set_probe_update_state :
    Bool → List ProbeUpdate → Text → UpdateState → Text → ℕ → List ProbeUpdate × Bool
unfolding update_rows find_update
set_probe_update_state fails us k state error at =
    if fails
    then (us, false)
    else (update_rows (moved state error at) k us, is_some (find_update k us))

abbrev pub counted : ℕ → ProbeUpdate → ProbeUpdate
counted at u = record u { deliveries = u.deliveries + 1; updated_at = at }

abbrev pub deliveries_of : Option ProbeUpdate → Option ℕ
deliveries_of none = none
deliveries_of (some u) = some u.deliveries

-- Returns the new count, or none on an error.
unfoldable pub increment_probe_update_deliveries :
    Bool → List ProbeUpdate → Text → ℕ → List ProbeUpdate × Option ℕ
unfolding update_rows find_update
increment_probe_update_deliveries fails us k at = if fails then (us, none) else (
  update_rows (counted at) k us,
  deliveries_of (find_update k (update_rows (counted at) k us)),
)

unfoldable pub clear_probe_update : Bool → List ProbeUpdate → Text → List ProbeUpdate × Bool
unfolding clear_update
clear_probe_update fails us k = if fails then (us, false) else (clear_update k us, true)

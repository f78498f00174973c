-- ===== src/Server/Commands.antt =====
-- internal/server/probeupdate.go and probetokens.go: how an update of a remote probe is commanded and
-- cancelled, and the rollout over many probes. The release source, the cached binaries and their hash
-- are inputs; the texts of the errors are left out.
use hoptrail.Common.{
  ℕ, Bool, true, false, not, ◌&&◌, ◌||◌, Option, none, some, List, [], ◌∷◌, leb, if◌then◌else◌,
}
use hoptrail.Common.Text.{Text, codes, text_eq, is_blank}
use hoptrail.Release.{Release, version, newer, split_dots}
use hoptrail.Storage.Probes.{Probe}
use hoptrail.Storage.ProbeUpdates.{
  UpdateState, pending, applying, applied, failed, ProbeUpdate, find_update, command_probe_update,
  clear_probe_update,
}
use hoptrail.Server.ProbeUpdate.{Updates}

unfoldable pub all_digits : Text → Bool
all_digits [] = true
all_digits (c ∷ s) = leb b'0' c && leb c b'9' && all_digits s

abbrev pub is_number : Text → Bool
is_number s = not (is_blank s) && all_digits s

abbrev pub three_numbers : Text × List Text → Bool
three_numbers (p, []) = false
three_numbers (p, q ∷ []) = false
three_numbers (p, q ∷ r ∷ []) = is_number p && is_number q && is_number r
three_numbers (p, q ∷ r ∷ s ∷ more) = false

-- `^[0-9]+\.[0-9]+\.[0-9]+$`
unfoldable pub matches_version : Text → Bool
unfolding split_dots all_digits
matches_version s = three_numbers (split_dots s)

-- What the surroundings answer: the release source (none where there is none; then none for its
-- error), whether the binary is cached or can be downloaded, its hash, the clock, and whether the
-- statement fails.
pub record Commanding : Type 0 where
  pub source : Option (Option Release)
  pub is_cached : Bool
  pub downloads : Bool
  pub sum : Option Text
  pub now : ℕ
  pub fails : Bool

-- The table with the status of the error, or none.
abbrev pub command_written : Updates → List ProbeUpdate × Bool → Updates × Option ℕ
command_written s (rows, true) = (record s { rows = rows }, none)
command_written s (rows, false) = (record s { rows = rows }, some 500)

abbrev pub command_hashed :
    Commanding → Updates → Text → Text → Text → Option Text → Updates × Option ℕ
command_hashed w s k target arch none = (s, some 500)
command_hashed w s k target arch (some sum) = command_written s (
    command_probe_update w.fails s.rows (record {
      probe_id = k;
      target_version = target;
      arch = arch;
      sha256 = sum;
      state = pending;
      error = [];
      deliveries = 0;
      requested_at = w.now;
      updated_at = w.now;
    }))

abbrev pub is_current : Text → Option Text → Bool
is_current target none = false
is_current target (some reported) = not (newer target reported)

abbrev pub command_release :
    Commanding → Updates → Probe → Text → Option Release → Updates × Option ℕ
command_release w s p arch none = (s, some 502)
command_release w s p arch (some rel) =
    if not (matches_version (version rel))
    then (s, some 502)
    else if is_current (version rel) p.version
    then (s, some 409)
    else if not w.is_cached && not w.downloads
    then (s, some 502)
    else command_hashed w s p.probe_id (version rel) arch w.sum

abbrev pub command_arch :
    Commanding → Updates → Probe → Option (Option Release) → Option Text → Updates × Option ℕ
command_arch w s p none arch = (s, some 501)
command_arch w s p (some latest) none = (s, some 409)
command_arch w s p (some latest) (some arch) = command_release w s p arch latest

unfoldable pub command_update_for : Commanding → Updates → Probe → Updates × Option ℕ
unfolding matches_version newer version command_probe_update
command_update_for w s p = command_arch w s p w.source p.arch

-- The DELETE of `handleProbeUpdateOp`; only an update that is not applying can be cancelled.
abbrev pub is_applying : UpdateState → Bool
is_applying applying = true
is_applying pending = false
is_applying applied = false
is_applying failed = false

abbrev pub cleared_status : Updates → List ProbeUpdate × Bool → Updates × ℕ
cleared_status s (rows, true) = (record s { rows = rows }, 204)
cleared_status s (rows, false) = (s, 500)

abbrev pub cancel_found : Bool → Updates → Text → Option ProbeUpdate → Updates × ℕ
cancel_found fails s k none = (s, 404)
cancel_found fails s k (some u) =
    if is_applying u.state then (s, 409) else cleared_status s (clear_probe_update fails s.rows k)

abbrev pub is_reserved : Text → Bool
is_reserved k = is_blank k || text_eq k (codes "local") || text_eq k (codes "all")

unfoldable pub cancel_probe_update : Bool → Bool → Updates → Text → Updates × ℕ
unfolding clear_probe_update find_update
cancel_probe_update lookup_fails fails s k =
    if is_reserved k
    then (s, 400)
    else if lookup_fails
    then (s, 500)
    else cancel_found fails s k (find_update k s.rows)

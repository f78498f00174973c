-- ===== src/Analysis/Routing.antt =====
-- internal/analysis/routing.go: route-change detection and the identity that a hop displays.
-- The lists of observations are newest first.
pub mod Detection
pub mod Modal
use hoptrail.Common.{
  ℕ, zero, suc, ◌+◌, Bool, true, false, not, ◌&&◌, Option, none, some, List, [], ◌∷◌, length, ltb,
  leb, ◌==◌, if◌then◌else◌,
}
use hoptrail.Common.Addr.{Addr, invalid, is_valid, same}
use hoptrail.Common.Int.{ℤ, at_least_one}

-- The first loop: the most recent observation that is not anonymous.
abbrev pub first_valid : List Addr → Option Addr
first_valid [] = none
first_valid (o ∷ os) = if is_valid o then some o else first_valid os

-- The second loop, with `consecutive` counted on the way back: anonymous entries are skipped, and
-- another valid address ends the run.
abbrev pub count_run : Addr → List Addr → ℕ
count_run candidate [] = 0
count_run candidate (o ∷ os) =
    let rest = count_run candidate os in
    if not (is_valid o) then rest else if same o candidate then suc rest else 0

unfoldable pub detect_route_change : List Addr → Addr → ℤ → Bool × Addr
detect_route_change observations current_ip threshold = elim (first_valid observations) [
  | none ↦ (false, invalid)
  | some candidate ↦
      if leb (at_least_one threshold) (count_run candidate observations)
        && not (same candidate current_ip)
      then (true, candidate)
      else (false, invalid)
]

-- The map `counts`, as an association list.
abbrev pub Counts : Type 0
Counts = List (Addr × ℕ)

-- `counts[a]`, which is 0 for a missing key
unfoldable pub get_count : Counts → Addr → ℕ
get_count [] a = 0
get_count ((b, n) ∷ m) a = if same b a then n else get_count m a

-- `counts[a]++`
unfoldable pub bump : Counts → Addr → Counts
bump [] a = (a, 1) ∷ []
bump ((b, n) ∷ m) a = if same b a then (b, n + 1) ∷ m else (b, n) ∷ bump m a

unfoldable pub tally : Counts → List Addr → Counts
tally counts [] = counts
tally counts (o ∷ os) = tally (if is_valid o then bump counts o else counts) os

-- The last loop, over `best` and `modal`.
unfoldable pub pick : Counts → List Addr → ℕ → Addr → Addr
pick counts [] best modal = modal
pick counts (o ∷ os) best modal =
    let better = is_valid o && ltb best (get_count counts o) in
    pick counts os (if better then get_count counts o else best) (if better then o else modal)

unfoldable pub modal_ip : List Addr → Addr × Bool
modal_ip observations =
    let counts = tally [] observations in
    if length counts == 0 then (invalid, false) else (pick counts observations 0 invalid, true)

-- ===== src/Release/Order.antt =====
-- `Newer` (internal/release/release.go) as an order on versions.
use hoptrail.Common.{◌<◌, ◌≡◌, ◌↔◌, ◌⊎◌, refl, ap₂, ◌∙◌, true, Option, none, some, arith}
use hoptrail.Common.Text.{Text}
use hoptrail.Release.{Semver, parse_semver, larger, both_larger, newer}
use hoptrail.Release.Reading.{Reads, parse_semver_iff}

-- The first number in which the versions differ is less in the first one.
abbrev pub Below : Semver → Semver → Type 0
Below r l =
    (r.major < l.major)
    ⊎ ((r.major ≡ l.major) × (r.minor < l.minor))
    ⊎ ((r.major ≡ l.major) × (r.minor ≡ l.minor) × (r.patch < l.patch))

larger_sound : (l r : Semver) → larger l r ≡ true → Below r l
larger_sound l r h = ground arith

larger_complete : (l r : Semver) → Below r l → larger l r ≡ true
larger_complete l r h = ground arith

both_larger_inv :
    (o p : Option Semver)
    → both_larger o p ≡ true
    → (l r : Semver) × (o ≡ some l) × (p ≡ some r) × (larger l r ≡ true)
both_larger_inv (some l) (some r) h = (l, r, refl, refl, h)
both_larger_inv (some l) none h = cc
both_larger_inv none p h = cc

-- A version is newer than another exactly if both read as three numbers, spaces around them, a
-- leading "v" and a suffix that begins with a dash left aside, and the first number in which the
-- two differ is larger in it; so a version that does not read so is never newer, and nothing is
-- newer than it.
pub newer_iff :
    (latest running : Text)
    → (newer latest running ≡ true)
      ↔ ((l r : Semver) × Reads latest l × Reads running r × Below r l)
unfolding newer
newer_iff latest running = (
  λ h.
      let (l, r, p, q, g) = both_larger_inv (parse_semver latest) (parse_semver running) h in
      (l, r, (parse_semver_iff latest l).0 p, (parse_semver_iff running r).0 q, larger_sound l r g),
  λ (l, r, p, q, b).
      ap₂ both_larger ((parse_semver_iff latest l).1 p) ((parse_semver_iff running r).1 q)
      ∙ larger_complete l r b,
)

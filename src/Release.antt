-- ===== src/Release.antt =====
-- internal/release/release.go and checker.go: choosing and comparing releases, and the due-ness rule
-- of the background check. Times are nanoseconds.
use hoptrail.Common.{
  ℕ, ◌+◌, ◌-◌, ◌*◌, ◌/◌, ◌^◌, Bool, true, false, not, ◌&&◌, ◌||◌, Option, none, some, List, [], ◌∷◌,
  ◌++◌, reverse, ltb, leb, ◌==◌, if◌then◌else◌,
}
use hoptrail.Common.Text.{Text, codes, text_eq, has_prefix, has_suffix, trim_prefix}
use hoptrail.Alert.Config.{atoi, up_to}
use hoptrail.Alert.Engine.{hour, unix_milli, from_milli}
pub mod Reading
pub mod Order
pub mod Due

abbrev pub day : ℕ
day = 24 * hour

-- `none` is "off".
unfoldable pub interval_duration : Text → Option ℕ
interval_duration setting =
    if text_eq setting (codes "off")
    then none
    else if text_eq setting (codes "daily")
    then some day
    else if text_eq setting (codes "weekly")
    then some (7 * day)
    else if text_eq setting (codes "monthly")
    then some (30 * day)
    else some (30 * day)

unfoldable pub valid_interval : Text → Bool
valid_interval s =
    text_eq s (codes "off")
    || text_eq s (codes "daily")
    || text_eq s (codes "weekly")
    || text_eq s (codes "monthly")

pub record LastCheck : Type 0 where
  pub at : ℕ  -- unix ms
  pub latest_version : Text
  pub url : Text
  pub err : Text

pub record Asset : Type 0 where
  pub name : Text
  pub url : Text
  pub size : ℕ

pub record Release : Type 0 where
  pub tag_name : Text
  pub html_url : Text
  pub assets : List Asset

unfoldable pub version : Release → Text
version r = trim_prefix r.tag_name (codes "v")

unfoldable pub asset_with : Text → List Asset → Option Asset
asset_with suffix [] = none
asset_with suffix (a ∷ more) =
    let rest = asset_with suffix more in
    if has_prefix a.name (codes "hoptrail_") && has_suffix a.name suffix then some a else rest

unfoldable pub binary_asset : Release → Text → Option Asset
binary_asset r goarch = asset_with (codes "_linux_" ++ goarch ++ codes ".tar.gz") r.assets

unfoldable pub checksums_asset : Release → Option Asset
checksums_asset r = asset_with (codes "_checksums.txt") r.assets

-- `unicode.IsSpace`
abbrev pub is_space : ℕ → Bool
is_space c =
    (leb 9 c && leb c 13)
    || c == 32
    || c == 0x85
    || c == 0xa0
    || c == 0x1680
    || (leb 0x2000 c && leb c 0x200a)
    || c == 0x2028
    || c == 0x2029
    || c == 0x202f
    || c == 0x205f
    || c == 0x3000

unfoldable pub trim_left : Text → Text
trim_left [] = []
trim_left (c ∷ s) = let rest = trim_left s in if is_space c then rest else c ∷ s

abbrev pub trim_space : Text → Text
trim_space s = reverse (trim_left (reverse (trim_left s)))

-- `s[:strings.IndexByte(s, '-')]`
unfoldable pub before_dash : Text → Text
before_dash [] = []
before_dash (c ∷ s) = let rest = before_dash s in if c == b'-' then [] else c ∷ rest

-- `strings.Split(s, ".")`, as its first part and the others.
unfoldable pub split_dots : Text → Text × List Text
split_dots [] = ([], [])
split_dots (c ∷ s) =
    let rest = split_dots s in if c == b'.' then ([], rest.0 ∷ rest.1) else (c ∷ rest.0, rest.1)

-- A part is an int that is not negative.
abbrev pub part_value : Text → Option ℕ
part_value p = up_to (2 ^ 63 - 1) (atoi p)

pub record Semver : Type 0 where
  pub major : ℕ
  pub minor : ℕ
  pub patch : ℕ

abbrev pub semver_of : Option ℕ → Option ℕ → Option ℕ → Option Semver
semver_of (some a) (some b) (some c) = some (record { major = a; minor = b; patch = c })
semver_of (some a) (some b) none = none
semver_of (some a) none o = none
semver_of none o p = none

abbrev pub three_parts : Text × List Text → Option Semver
three_parts (p, []) = none
three_parts (p, q ∷ []) = none
three_parts (p, q ∷ r ∷ []) = semver_of (part_value p) (part_value q) (part_value r)
three_parts (p, q ∷ r ∷ s ∷ more) = none

unfoldable pub parse_semver : Text → Option Semver
parse_semver s = three_parts (split_dots (before_dash (trim_prefix (trim_space s) (codes "v"))))

-- The loop over the three components.
abbrev pub larger : Semver → Semver → Bool
larger l r =
    if not (l.major == r.major)
    then ltb r.major l.major
    else if not (l.minor == r.minor)
    then ltb r.minor l.minor
    else if not (l.patch == r.patch)
    then ltb r.patch l.patch
    else false

abbrev pub both_larger : Option Semver → Option Semver → Bool
both_larger (some l) (some r) = larger l r
both_larger (some l) none = false
both_larger none o = false

unfoldable pub newer : Text → Text → Bool
newer latest running = both_larger (parse_semver latest) (parse_semver running)

-- A read of the config table: it fails, finds no row, or finds one.
pub data Setting : Type 0 where
  unreadable missing : Setting
  found : Text → Setting

-- What `CheckNow` persists: the fetched release, or the text of the error.
abbrev pub check_result : ℕ → Release × Text → Bool → LastCheck
check_result now (rel, err) true = record {
  at = unix_milli now;
  latest_version = version rel;
  url = rel.html_url;
  err = [];
}
check_result now (rel, err) false = record {
  at = unix_milli now;
  latest_version = [];
  url = [];
  err = err;
}

-- A row with the time 0 counts as unreadable.
abbrev pub read_last_check : Option LastCheck → Option LastCheck
read_last_check none = none
read_last_check (some lc) = if lc.at == 0 then none else some lc

abbrev pub is_recent : ℕ → Option LastCheck → ℕ → Bool
is_recent now none duration = false
is_recent now (some lc) duration = ltb (now - from_milli lc.at) duration

-- Reading the persisted result back does not fail.
-- The persisted result after one pass at time `now`, and whether the pass fetched.
abbrev pub pass_after :
    ℕ → Option ℕ → Option LastCheck → Release × Text → Bool → Bool → Option LastCheck × Bool
pass_after now none stored answer ok persists = (stored, false)
pass_after now (some duration) stored answer ok persists =
    if is_recent now (read_last_check stored) duration
    then (stored, false)
    else (if persists then some (check_result now answer ok) else stored, true)

unfoldable pub pass :
    Setting → ℕ → Option LastCheck → Release × Text → Bool → Bool → Option LastCheck × Bool
pass unreadable now stored answer ok persists = (stored, false)
pass missing now stored answer ok persists =
    pass_after now (interval_duration (codes "monthly")) stored answer ok persists
pass (found setting) now stored answer ok persists =
    pass_after now (interval_duration setting) stored answer ok persists

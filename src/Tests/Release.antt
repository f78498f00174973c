-- ===== src/Tests/Release.antt =====
-- Tests and witnesses for internal/release.
use hoptrail.Common.{◌≡◌, ◌↔◌, refl, true, false, []}
use hoptrail.Common.Text.{Text, codes, has_prefix, trim_prefix}
use hoptrail.Alert.Config.{atoi, digits_value}
use hoptrail.Release.{Release, Semver, newer, parse_semver, trim_left, before_dash, split_dots}
use hoptrail.Release.Order.{Below, newer_iff}
use hoptrail.Release.Reading.{Reads}

-- A development build after the release is not flagged.
dev_build : newer (codes "v0.4.0") (codes "v0.4.0-52-gabc") ≡ false
unfolding newer parse_semver trim_left trim_prefix has_prefix before_dash split_dots atoi
    digits_value
dev_build = refl

next_minor : newer (codes "0.10.0") (codes "v0.9.3") ≡ true
unfolding newer parse_semver trim_left trim_prefix has_prefix before_dash split_dots atoi
    digits_value
next_minor = refl

next_patch : newer (codes " v0.9.4") (codes "0.9.3-2-gabc") ≡ true
unfolding newer parse_semver trim_left trim_prefix has_prefix before_dash split_dots atoi
    digits_value
next_patch = refl

dev_running : newer (codes "1.0.0") (codes "dev") ≡ false
unfolding newer parse_semver trim_left trim_prefix has_prefix before_dash split_dots atoi
    digits_value
dev_running = refl

newer_iff_example :
    (newer (codes "0.10.0") (codes "v0.9.3") ≡ true)
    ↔ ((l r : Semver) × Reads (codes "0.10.0") l × Reads (codes "v0.9.3") r × Below r l)
newer_iff_example = newer_iff (codes "0.10.0") (codes "v0.9.3")

abbrev latest : Release × Text
latest = (record { tag_name = codes "v1.0.0"; html_url = []; assets = [] }, [])

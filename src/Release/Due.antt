-- ===== src/Release/Due.antt =====
-- The spacing of the background release checks (internal/release/checker.go).
use hoptrail.Common.Text.{Text}
use hoptrail.Release.{Release}

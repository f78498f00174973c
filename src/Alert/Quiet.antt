-- ===== src/Alert/Quiet.antt =====
-- What the minute test of `inQuietWindow` (internal/alert/engine.go) means on the clock's circle.
use hoptrail.Common.{ℕ, ◌+◌, ◌-◌, ◌%◌, ◌<◌, ◌≡◌, arith, ltb}
use hoptrail.Alert.Engine.{in_minutes}

-- For minutes of the day, the window is met exactly when the clock, started at the window's first
-- minute, has run for less time than the window is long, whether or not it wraps around midnight.
pub in_minutes_lem :
    (cur s e : ℕ)
    → cur < 1440
    → s < 1440
    → e < 1440
    → in_minutes cur s e ≡ ltb ((cur + 1440 - s) % 1440) ((e + 1440 - s) % 1440)
unfolding in_minutes
in_minutes_lem cur s e p q r = ground arith

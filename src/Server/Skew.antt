-- ===== src/Server/Skew.antt =====
-- The clock-skew test of internal/server/ingest.go, whose difference is taken in 64 bits.
use hoptrail.Common.{ℕ, ◌+◌, ◌^◌, ◌≤◌, ◌<◌, ◌≡◌, ◌↔◌, false, arith}
use hoptrail.Server.Ingest.{is_skewed}

-- Whatever 64 bits a timestamp has, and for a clock from one day after 1970 on, it is accepted exactly
-- if it lies within a day of the clock, so that no difference that wraps around slips through.
pub is_skewed_iff :
    (ts now : ℕ)
    → ts < 2 ^ 64
    → 86_400_000 ≤ now
    → now < 2 ^ 62
    → (is_skewed ts now ≡ false) ↔ ((now ≤ ts + 86_400_000) × (ts ≤ now + 86_400_000))
unfolding is_skewed
is_skewed_iff ts now h p q = ground arith

-- ===== src/Common/Addr.antt =====
-- `netip.Addr`: the zero value, which is invalid, or an address, which counts by its number alone.
use Prim.Native.Nat.{ℕ}
use mathlib.Core.Path.{◌≡◌, refl}
use mathlib.Core.Logic.{◌↔◌}
use mathlib.Core.Bool.{Bool, true, false}
use native.Mathlib.Omega.{arith}
use hoptrail.Common.Tests.{◌==◌}
use hoptrail.Common.Go.{Zero}

pub data Addr : Type 0 where
  invalid : Addr
  host : ℕ → Addr

instance abbrev pub addr_zero : Zero Addr
addr_zero = record { zero_value = invalid }

abbrev pub is_valid : Addr → Bool
is_valid invalid = false
is_valid (host n) = true

-- Go's `==` on addresses.
abbrev pub same : Addr → Addr → Bool
same invalid invalid = true
same (host n) (host m) = n == m
same invalid (host m) = false
same (host n) invalid = false

pub same_iff : (a b : Addr) → (same a b ≡ true) ↔ (a ≡ b)
same_iff invalid invalid = ground arith
same_iff (host n) (host m) = ground arith
same_iff invalid (host m) = ground arith
same_iff (host n) invalid = ground arith

pub same_refl : (a : Addr) → same a a ≡ true
same_refl a = (same_iff a a).1 refl

-- ===== src/Common/Int.antt =====
-- Go's signed `int` over the native numbers, under the library's names.
use Prim.Native.Nat.{ℕ, suc, ◌+◌, ◌-◌, ◌*◌, ◌/◌, ◌%◌, ◌^◌}
use mathlib.Core.Bool.{Bool, false}
use hoptrail.Common.Tests.{◌==◌, ltb, leb, if◌then◌else◌}

-- `negsuc n` is -(n + 1).
pub data ℤ : Type 0 where
  pos : ℕ → ℤ
  negsuc : ℕ → ℤ

abbrev pub pos_part : ℤ → ℕ
pos_part (pos n) = n
pos_part (negsuc n) = 0

abbrev pub neg_part : ℤ → ℕ
neg_part (pos n) = 0
neg_part (negsuc n) = suc n

-- a - b, as an integer.
abbrev pub sub_ℕ : ℕ → ℕ → ℤ
sub_ℕ a b = if leb b a then pos (a - b) else negsuc (b - a - 1)

abbrev pub ltb_ℤ : ℤ → ℤ → Bool
ltb_ℤ a b = ltb (pos_part a + neg_part b) (pos_part b + neg_part a)

-- `if n < 1 { n = 1 }`
abbrev pub at_least_one : ℤ → ℕ
at_least_one (negsuc n) = 1
at_least_one (pos n) = if ltb n 1 then 1 else n

abbrev pub same_ℤ : ℤ → ℤ → Bool
same_ℤ (pos n) (pos m) = n == m
same_ℤ (negsuc n) (negsuc m) = n == m
same_ℤ (pos n) (negsuc m) = false
same_ℤ (negsuc n) (pos m) = false

-- An int64 as its 64 bits, and an integer as the int64 with its last 64 bits.
abbrev pub int64 : ℕ → ℤ
int64 w = if ltb w (2 ^ 63) then pos w else negsuc (2 ^ 64 - 1 - w)

abbrev pub wrap64 : ℤ → ℤ
wrap64 (pos n) = int64 (n % 2 ^ 64)
wrap64 (negsuc n) = int64 (2 ^ 64 - 1 - n % 2 ^ 64)

abbrev pub scale : ℕ → ℤ → ℤ
scale m (pos n) = pos (n * m)
scale m (negsuc n) = sub_ℕ 0 (suc n * m)

-- Division that truncates towards zero.
abbrev pub quotient : ℤ → ℕ → ℤ
quotient (pos n) m = pos (n / m)
quotient (negsuc n) m = sub_ℕ 0 (suc n / m)

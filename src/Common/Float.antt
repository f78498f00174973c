-- ===== src/Common/Float.antt =====
-- `float64` as the code uses it: a type with the operations and the comparison, nothing more.
use Prim.Native.Nat.{ℕ}
use mathlib.Core.Path.{◌≡◌}
use mathlib.Core.Bool.{Bool, true, false}

pub record Float : Type 1 where
  pub F : Type 0
  pub of_nat : ℕ → F
  pub sub : F → F → F
  pub mul : F → F → F
  pub div : F → F → F
  pub lt : F → F → Bool

-- What IEEE 754 guarantees: comparisons that go through a number, which is a value that is not NaN,
-- chain; subtraction, whose rounding is monotone, respects the order; the difference of two finite
-- values is a number, finite or not. A comparison with NaN is false.
pub record IsOrdered (fl : Float) : Type 0 where
  pub is_number : fl.F → Bool
  pub is_finite : fl.F → Bool
  pub not_lt_trans :
      (a b c : fl.F)
      → is_number b ≡ true
      → fl.lt a b ≡ false
      → fl.lt b c ≡ false
      → fl.lt a c ≡ false
  pub sub_mono :
      (a b c : fl.F)
      → is_number b ≡ true
      → is_number c ≡ true
      → fl.lt c b ≡ false
      → fl.lt (fl.sub a b) (fl.sub a c) ≡ false
  pub finite_number : (a : fl.F) → is_finite a ≡ true → is_number a ≡ true
  pub sub_number :
      (a b : fl.F) → is_finite a ≡ true → is_finite b ≡ true → is_number (fl.sub a b) ≡ true

-- ===== src/Common/Go.antt =====
-- What the models use of Go itself: the zero value of a type.
use Prim.Native.Nat.{ℕ}
use mathlib.Core.Bool.{Bool, false}

pub record Zero {ℓ} (A : Type ℓ) : Type ℓ where
  pub zero_value : A

instance abbrev pub nat_zero : Zero ℕ
nat_zero = record { zero_value = 0 }

instance abbrev pub bool_zero : Zero Bool
bool_zero = record { zero_value = false }

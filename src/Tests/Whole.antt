-- ===== src/Tests/Whole.antt =====
-- A concrete `float64` for the runs: whole numbers.
use hoptrail.Common.{ℕ, ◌-◌, ◌*◌, ◌/◌, ◌≡◌, true, false, arith, ltb, refl}
use hoptrail.Common.Float.{Float, IsOrdered}

-- Whole percentages stand in for `float64`.
abbrev pub whole : Float
whole = record {
  F = ℕ;
  of_nat = λ n. n;
  sub = λ a b. a - b;
  mul = λ a b. a * b;
  div = λ a b. a / b;
  lt = ltb;
}

pub not_lt_trans_whole :
    (a b c : ℕ) → true ≡ true → ltb a b ≡ false → ltb b c ≡ false → ltb a c ≡ false
not_lt_trans_whole a b c n h k = ground arith

pub sub_mono_whole :
    (a b c : ℕ) → true ≡ true → true ≡ true → ltb c b ≡ false → ltb (a - b) (a - c) ≡ false
sub_mono_whole a b c n m h = ground arith

abbrev pub whole-IsOrdered : IsOrdered whole
whole-IsOrdered = record {
  is_number = λ a. true;
  is_finite = λ a. true;
  not_lt_trans = not_lt_trans_whole;
  sub_mono = sub_mono_whole;
  finite_number = λ a h. refl;
  sub_number = λ a b h k. refl;
}

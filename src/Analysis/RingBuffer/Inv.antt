-- ===== src/Analysis/RingBuffer/Inv.antt =====
-- The representation invariant of the ring buffer (internal/analysis/ringbuf.go).
use hoptrail.Common.{
  ℕ, zero, suc, refl, ◌⊎◌, ◌+◌, ◌-◌, ◌%◌, ◌≤◌, ◌<◌, ◌≡◌, inl, inr, arith, length, length-set,
  length-replicate, Zero, ◌==◌, ==_iff, if◌then◌else◌, Bool-cases,
}
use native.Mathlib.Nat.{mod-eq-sub-mod, mod-eq_of_lt, le_refl}
use hoptrail.Common.Int.{ℤ, at_least_one}
use hoptrail.Analysis.RingBuffer.{RingBuffer, push, new_ring_buffer}

pub record IsValid {ℓ} {A : Type ℓ} (r : RingBuffer A) : Type 0 where
  pub head_in : r.head < length r.buf
  pub size_in : r.size ≤ length r.buf
  -- Until the buffer is full the valid elements are `buf[0..head)`.
  pub filling : r.size < length r.buf → r.head ≡ r.size

pub at_least_one_pos : (c : ℤ) → 0 < at_least_one c
at_least_one_pos (ℤ.pos n) = ground arith
at_least_one_pos (ℤ.negsuc n) = omega arith

-- One step forward, going round at the capacity.
pub next_index : (i n : ℕ) → i < n → (i + 1) % n ≡ (if i + 1 == n then 0 else i + 1)
next_index i n h = elim (Bool-cases (i + 1 == n)) [
  | inl e ↦
      rw (e, (==_iff (i + 1) n).0 e)
        (omega (
          arith,
          mod-eq-sub-mod {n = n} {m = n} (le_refl n),
          mod-eq_of_lt {n = 0} {m = n} (omega arith),
        ))
  | inr e ↦ rw e (mod-eq_of_lt (ground arith))
]

-- One step back, going round at 0.
pub prev_index :
    (i n : ℕ)
    → i < n
    → ((i ≡ 0) × ((i + n - 1) % n ≡ n - 1)) ⊎ ((0 < i) × ((i + n - 1) % n ≡ i - 1))
prev_index zero n h = inl (refl, omega (arith, mod-eq_of_lt {n = 0 + n - 1} {m = n} (omega arith)))
prev_index (suc i) n h = inr (
  omega arith,
  omega (
    arith,
    mod-eq-sub-mod {n = suc i + n - 1} {m = n} (omega arith),
    mod-eq_of_lt {n = suc i + n - 1 - n} {m = n} (omega arith),
  ),
)

module _ {ℓ} {A : Type ℓ} where
  pub push-IsValid : (r : RingBuffer A) (v : A) → IsValid r → IsValid (push r v)
  unfolding push
  push-IsValid r v h =
      ground (arith, length-set r.buf r.head v, next_index r.head (length r.buf) h.head_in)

  pub length-push : (r : RingBuffer A) (v : A) → length (push r v).buf ≡ length r.buf
  unfolding push
  length-push r v = length-set r.buf r.head v

pub new_ring_buffer-IsValid {ℓ} :
    {A : Type ℓ} ⦃z : Zero A⦄ (c : ℤ) → IsValid (new_ring_buffer {A = A} c)
unfolding new_ring_buffer
new_ring_buffer-IsValid ⦃z⦄ c =
    omega (arith, length-replicate (at_least_one c) z.zero_value, at_least_one_pos c)

-- ===== src/Analysis/RingBuffer.antt =====
-- internal/analysis/ringbuf.go: a buffer of fixed capacity that keeps the most recent values.
-- `%` and the indexing stay inside the backing slice by `Inv.IsValid`, so no operation panics.
pub mod Inv
pub mod Refine
pub mod History
use hoptrail.Common.{
  ℕ, zero, suc, ◌+◌, ◌-◌, ◌%◌, Bool, true, false, List, [], ◌∷◌, reverse, length, get_or, set,
  replicate, ltb, ◌==◌, if◌then◌else◌, Zero,
}
use hoptrail.Common.Int.{ℤ, at_least_one}

pub record RingBuffer {ℓ} (A : Type ℓ) : Type ℓ where
  pub buf : List A
  pub head : ℕ  -- where the next push writes
  pub size : ℕ  -- number of valid elements

module _ {ℓ} {A : Type ℓ} where
  -- A write to `buf[head]`, and the size grows up to the capacity.
  unfoldable pub push : RingBuffer A → A → RingBuffer A
  push r v = record {
    buf = set r.buf r.head v;
    head = (r.head + 1) % length r.buf;
    size = if ltb r.size (length r.buf) then r.size + 1 else r.size;
  }

  unfoldable pub len : RingBuffer A → ℕ
  len r = r.size

  unfoldable pub cap : RingBuffer A → ℕ
  cap r = length r.buf

  -- `(i - 1 + len(r.buf)) % len(r.buf)`, where `i - 1` may be -1
  abbrev pub step_back : List A → ℕ → ℕ
  step_back buf i = (i + length buf - 1) % length buf

module _ {ℓ} {A : Type ℓ} ⦃z : Zero A⦄ where
  unfoldable pub new_ring_buffer : ℤ → RingBuffer A
  new_ring_buffer capacity = record {
    buf = replicate (at_least_one capacity) z.zero_value;
    head = 0;
    size = 0;
  }

  unfoldable pub newest : RingBuffer A → A × Bool
  newest r =
      if r.size == 0
      then (z.zero_value, false)
      else (get_or r.buf (step_back r.buf r.head) z.zero_value, true)

  unfoldable pub oldest : RingBuffer A → A × Bool
  oldest r =
      if r.size == 0
      then (z.zero_value, false)
      else (get_or r.buf (if r.size == length r.buf then r.head else 0) z.zero_value, true)

  -- the loop of `NewestFirst`, with the rounds left
  abbrev pub walk : List A → ℕ → ℕ → List A
  walk buf i zero = []
  walk buf i (suc n) = get_or buf i z.zero_value ∷ walk buf (step_back buf i) n

  unfoldable pub newest_first : RingBuffer A → List A
  newest_first r = if r.size == 0 then [] else walk r.buf (step_back r.buf r.head) r.size

  -- The source reverses its fresh copy in place.
  unfoldable pub oldest_first : RingBuffer A → List A
  unfolding newest_first
  oldest_first r = reverse (newest_first r)

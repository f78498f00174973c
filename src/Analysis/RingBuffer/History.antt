-- ===== src/Analysis/RingBuffer/History.antt =====
-- What a ring buffer (internal/analysis/ringbuf.go) shows of the values pushed into it.
use mathlib.Core.List.{reverse-append}
use hoptrail.Common.{
  ℕ, zero, suc, ◌+◌, ◌-◌, ◌<◌, ◌≡◌, refl, sym, ◌∙◌, ap, ◌⊎◌, inl, inr, not, List, [], ◌∷◌, ◌++◌,
  arith, append_assoc, append-nil, length, get_or, reverse, take, take-append-take,
  take_of_length_le, length-replicate, replicate, Zero, ◌==◌, if◌then◌else◌, Bool-cases,
}
use hoptrail.Common.Int.{ℤ, at_least_one}
use hoptrail.Analysis.RingBuffer.{
  RingBuffer, push, cap, len, new_ring_buffer, newest, oldest, walk, step_back, newest_first,
}
use hoptrail.Analysis.RingBuffer.Inv.{
  IsValid, push-IsValid, length-push, new_ring_buffer-IsValid, prev_index,
}
use hoptrail.Analysis.RingBuffer.Refine.{newest_first-walk, newest_first-push}

module _ {ℓ} {A : Type ℓ} where
  -- Pushes in the order of the list.
  abbrev pub push_all : RingBuffer A → List A → RingBuffer A
  push_all r [] = r
  push_all r (v ∷ vs) = push_all (push r v) vs

module _ {ℓ} {A : Type ℓ} ⦃z : Zero A⦄ where
  length-walk : (buf : List A) (i n : ℕ) → length (walk buf i n) ≡ n
  length-walk buf i zero = refl
  length-walk buf i (suc n) = ap suc (length-walk buf (step_back buf i) n)

  pub length-newest_first : (r : RingBuffer A) → length (newest_first r) ≡ len r
  unfolding len
  length-newest_first r =
      ap length (newest_first-walk r) ∙ length-walk r.buf (step_back r.buf r.head) r.size

  reverse-push : (v : A) (vs c : List A) → reverse vs ++ (v ∷ c) ≡ reverse (v ∷ vs) ++ c
  reverse-push v vs c =
      sym (append_assoc (reverse vs) (v ∷ []) c)
      ∙ ap (λ t. t ++ c) (sym (reverse-append (v ∷ []) vs))

  newest_first-push_all_from :
      (r : RingBuffer A) (vs : List A)
      → IsValid r
      → newest_first (push_all r vs) ≡ take (length r.buf) (reverse vs ++ newest_first r)
  unfolding len cap
  newest_first-push_all_from r [] h =
      sym (take_of_length_le _ (newest_first r) (omega (arith, length-newest_first r, h.size_in)))
  newest_first-push_all_from r (v ∷ vs) h =
      newest_first-push_all_from (push r v) vs (push-IsValid r v h)
      ∙ ap (λ t. take (length (push r v).buf) (reverse vs ++ t)) (newest_first-push r v h)
      ∙ ap (λ n. take n (reverse vs ++ take (length r.buf) (v ∷ newest_first r))) (length-push r v)
      ∙ take-append-take (length r.buf) (reverse vs) (v ∷ newest_first r)
      ∙ ap (λ t. take (length r.buf) t) (reverse-push v vs (newest_first r))

  -- A fresh buffer of a requested capacity shows, newest first, exactly the last values pushed, as
  -- many as the capacity clamped to at least 1 allows.
  pub newest_first-push_all :
      (c : ℤ) (vs : List A)
      → newest_first (push_all (new_ring_buffer c) vs) ≡ take (at_least_one c) (reverse vs)
  unfolding new_ring_buffer newest_first
  newest_first-push_all c vs =
      newest_first-push_all_from (new_ring_buffer c) vs (new_ring_buffer-IsValid c)
      ∙ ap (λ t. take (length (replicate (at_least_one c) z.zero_value)) t)
          (append-nil (reverse vs))
      ∙ ap (λ n. take n (reverse vs)) (length-replicate (at_least_one c) z.zero_value)

  -- `n` steps forward from `j` lead to `i`, so the walk from `i` reads `buf[j]` after `n` steps back.
  get_or-walk :
      (buf : List A) (i j n : ℕ)
      → i < length buf
      → j < length buf
      → (j + n ≡ i) ⊎ (j + n ≡ i + length buf)
      → get_or (walk buf i (suc n)) n z.zero_value ≡ get_or buf j z.zero_value
  get_or-walk buf i j zero hi hj e = ap (λ k. get_or buf k z.zero_value) (omega arith)
  get_or-walk buf i j (suc n) hi hj e =
      get_or-walk buf (step_back buf i) j n (omega (arith, prev_index i (length buf) hi)) hj
        (elim (prev_index i (length buf) hi) [
          | inl (p, q) ↦ inl (omega arith)
          | inr (p, q) ↦ elim e [ inl f ↦ inl (omega arith) | inr f ↦ inr (omega arith) ]
        ])

  first-walk :
      (buf : List A) (i n : ℕ)
      → 0 < n
      → get_or (walk buf i n) 0 z.zero_value ≡ get_or buf i z.zero_value
  first-walk buf i zero h = absurd (omega arith)
  first-walk buf i (suc n) h = refl

  last-walk :
      (buf : List A) (i j n : ℕ)
      → 0 < n
      → i < length buf
      → j < length buf
      → (j + (n - 1) ≡ i) ⊎ (j + (n - 1) ≡ i + length buf)
      → get_or (walk buf i n) (n - 1) z.zero_value ≡ get_or buf j z.zero_value
  last-walk buf i j zero h hi hj e = absurd (omega arith)
  last-walk buf i j (suc n) h hi hj e =
      let p : suc n - 1 ≡ n = omega arith in rw p (get_or-walk buf i j n hi hj (rw p at e))

  newest_lem :
      (r : RingBuffer A) → newest r ≡ (get_or (newest_first r) 0 z.zero_value, not (r.size == 0))
  unfolding newest newest_first
  newest_lem r = elim (Bool-cases (r.size == 0)) [
    | inl e ↦ rw e
    | inr e ↦ rw (e, first-walk r.buf (step_back r.buf r.head) r.size (ground arith))
  ]

  -- Where the oldest value stands.
  oldest_index : RingBuffer A → ℕ
  oldest_index r = if r.size == length r.buf then r.head else 0

  oldest_place :
      (r : RingBuffer A)
      → IsValid r
      → 0 < r.size
      → (oldest_index r < length r.buf)
        × ((oldest_index r + (r.size - 1) ≡ step_back r.buf r.head)
            ⊎ (oldest_index r + (r.size - 1) ≡ step_back r.buf r.head + length r.buf))
  unfolding oldest_index
  oldest_place r h p = ground (arith, prev_index r.head (length r.buf) h.head_in)

  oldest_lem :
      (r : RingBuffer A)
      → IsValid r
      → oldest r ≡ (get_or (newest_first r) (r.size - 1) z.zero_value, not (r.size == 0))
  unfolding oldest newest_first oldest_index
  oldest_lem r h = elim (Bool-cases (r.size == 0)) [
    | inl e ↦ rw e
    | inr e ↦
        let p : 0 < r.size = ground arith in
        let (q, s) = oldest_place r h p in
        rw (
          e,
          last-walk r.buf (step_back r.buf r.head) (oldest_index r) r.size p
              (omega (arith, prev_index r.head (length r.buf) h.head_in)) q s,
        )
  ]

  -- `newest` and `oldest` return the two ends of the list that `newest_first` returns, and report
  -- whether the buffer is non-empty; that list is as long as `len` says.
  pub ends_lem :
      (r : RingBuffer A)
      → IsValid r
      → (newest r ≡ (get_or (newest_first r) 0 z.zero_value, not (len r == 0)))
        × (oldest r ≡ (get_or (newest_first r) (len r - 1) z.zero_value, not (len r == 0)))
        × (length (newest_first r) ≡ len r)
  unfolding len
  ends_lem r h = (newest_lem r, oldest_lem r h, length-newest_first r)

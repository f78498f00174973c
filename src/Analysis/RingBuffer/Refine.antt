-- ===== src/Analysis/RingBuffer/Refine.antt =====
-- The ring buffer of internal/analysis/ringbuf.go keeps the most recent values, newest first.
use hoptrail.Common.{
  ℕ, zero, suc, ◌+◌, ◌-◌, ◌%◌, ◌≤◌, ◌<◌, min, ◌≡◌, refl, sym, ◌∙◌, ap, ap₂, ◌⊎◌, inl, inr, List,
  ◌∷◌, arith, length, get_or, set, take, take-cons, length-set, get_or-set_self, get_or-set_ne,
  Zero, ◌==◌, ==_iff, if◌then◌else◌, Bool-cases, ltb,
}
use hoptrail.Analysis.RingBuffer.{RingBuffer, push, cap, walk, step_back, newest_first}
use hoptrail.Analysis.RingBuffer.Inv.{IsValid, next_index, prev_index}

zero_min : (n : ℕ) → min 0 n ≡ 0
zero_min n = omega arith

min_zero : (n : ℕ) → min n 0 ≡ 0
min_zero n = omega arith

min_suc : (k n : ℕ) → min (suc k) (suc n) ≡ suc (min k n)
min_suc k n = omega arith

prev-next : (i n : ℕ) → i < n → ((i + 1) % n + n - 1) % n ≡ i
prev-next i n h = elim (Bool-cases (i + 1 == n)) [
  | inl e ↦
      rw (next_index i n h, e)
        (elim (prev_index 0 n (omega arith)) [
          | inl (p, q) ↦ rw q (ground arith)
          | inr (p, q) ↦ absurd (omega arith)
        ])
  | inr e ↦
      rw (next_index i n h, e)
        (elim (prev_index (i + 1) n (ground arith)) [
          | inl (p, q) ↦ absurd (omega arith)
          | inr (p, q) ↦ rw q (omega arith)
        ])
]

grown : (s n : ℕ) → s ≤ n → 0 < n → (if ltb s n then s + 1 else s) ≡ suc (min (n - 1) s)
grown s n h p = ground arith

module _ {ℓ} {A : Type ℓ} ⦃z : Zero A⦄ where
  pub newest_first-walk :
      (r : RingBuffer A) → newest_first r ≡ walk r.buf (step_back r.buf r.head) r.size
  unfolding newest_first
  newest_first-walk r = elim (Bool-cases (r.size == 0)) [
    | inl e ↦ rw (e, (==_iff r.size 0).0 e)
    | inr e ↦ rw e
  ]

  pub take-walk : (buf : List A) (k i n : ℕ) → take k (walk buf i n) ≡ walk buf i (min k n)
  take-walk buf zero i n = rw (ap (λ k. walk buf i k) (zero_min n))
  take-walk buf (suc k) i zero = rw (ap (λ j. walk buf i j) (min_zero (suc k)))
  take-walk buf (suc k) i (suc n) =
      rw (ap (λ j. walk buf i j) (min_suc k n))
        (ap (λ t. get_or buf i z.zero_value ∷ t) (take-walk buf k (step_back buf i) n))

  -- `m` steps forward from `h` lead to `i`, so a walk of at most `m` steps back stops short of `h`.
  walk-set :
      (buf : List A) (v : A) (h i m n : ℕ)
      → i < length buf
      → m < length buf
      → n ≤ m
      → (i ≡ h + m) ⊎ (i + length buf ≡ h + m)
      → walk (set buf h v) i n ≡ walk buf i n
  walk-set buf v h i m zero hi hm hn e = refl
  walk-set buf v h i m (suc n) hi hm hn e =
      ap₂ ◌∷◌ (get_or-set_ne buf v z.zero_value (λ p. omega arith)) (
        rw length-set (
          walk-set buf v h (step_back buf i) (m - 1) n (omega (arith, prev_index i (length buf) hi))
            (omega arith) (omega arith)
            (elim (prev_index i (length buf) hi) [
              | inl (p, q) ↦ inl (omega arith)
              | inr (p, q) ↦ elim e [ inl f ↦ inl (omega arith) | inr f ↦ inr (omega arith) ]
            ])))

  -- What a push leaves, read from the slot that it wrote.
  walk-push :
      (r : RingBuffer A) (v : A)
      → IsValid r
      → walk (push r v).buf (step_back (push r v).buf (push r v).head) (push r v).size
        ≡ v ∷ walk r.buf (step_back r.buf r.head) (min (length r.buf - 1) r.size)
  unfolding push
  walk-push r v h =
      rw (length-set, back_to_head)
        (rw (grown r.size (length r.buf) h.size_in (omega arith)) (
          ap₂ ◌∷◌ (get_or-set_self r.buf r.head v z.zero_value h.head_in) (
            rw length-set (
              walk-set r.buf v r.head (step_back r.buf r.head) (length r.buf - 1)
                (min (length r.buf - 1) r.size)
                (omega (arith, prev_index r.head (length r.buf) h.head_in)) (omega arith)
                (omega arith)
                (elim (prev_index r.head (length r.buf) h.head_in) [
                  | inl (p, q) ↦ inl (omega arith)
                  | inr (p, q) ↦ inr (omega arith)
                ])))))
    where
      back_to_head : ((r.head + 1) % length r.buf + length r.buf - 1) % length r.buf ≡ r.head
      back_to_head = prev-next r.head (length r.buf) h.head_in

  -- A push puts the value in front and drops what exceeds the capacity.
  pub newest_first-push :
      (r : RingBuffer A) (v : A)
      → IsValid r
      → newest_first (push r v) ≡ take (cap r) (v ∷ newest_first r)
  unfolding cap
  newest_first-push r v h =
      newest_first-walk (push r v)
      ∙ walk-push r v h
      ∙ ap (λ t. v ∷ t) (sym (take-walk r.buf (length r.buf - 1) (step_back r.buf r.head) r.size))
      ∙ sym (take-cons (length r.buf) v _ (omega (arith, h.head_in)))
      ∙ ap (λ t. take (length r.buf) (v ∷ t)) (sym (newest_first-walk r))

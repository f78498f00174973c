-- ===== src/Agent/Backoff.antt =====
-- The delays of the flush loop (`RunFlushLoop`, internal/agent/sink.go).
use hoptrail.Common.{
  ℕ, zero, suc, ◌*◌, ◌^◌, ◌≤◌, ◌≡◌, refl, sym, ap, ◌∙◌, min, Bool, true, false, List, [], ◌∷◌, ◌++◌,
  arith, replicate, ◌⊎◌, inl, inr,
}
use hoptrail.Agent.Sink.{flush_retry_base, flush_retry_max, next_delay, delay_after}

delay_after-append :
    (hs ks : List Bool) (d : ℕ) → delay_after (hs ++ ks) d ≡ delay_after ks (delay_after hs d)
unfolding delay_after
delay_after-append [] ks d = refl
delay_after-append (h ∷ hs) ks d = delay_after-append hs ks (next_delay h d)

pow_pos : (n : ℕ) → 1 ≤ 2 ^ n
pow_pos zero = omega arith
pow_pos (suc n) = grind (arith, pow_pos n)

large : (d x : ℕ) → 1 ≤ x → 60 ≤ d → 60 ≤ d * x
large d x p q = grind arith

capped : (a b : ℕ) → 60 ≤ a → 60 ≤ b → min a 60 ≡ min b 60
capped a b p q = omega arith

doubled : (d x : ℕ) → (d * (2 * x)) ≡ (d * 2 * x)
doubled d x = grind arith

pow_suc : (n : ℕ) → (2 ^ suc n) ≡ (2 * 2 ^ n)
pow_suc n = grind arith

-- The next delay is the cap, or twice the one before.
next_delay-false :
    (d : ℕ) → (next_delay false d ≡ d * 2) × (d * 2 ≤ 60) ⊎ (next_delay false d ≡ 60) × (60 ≤ d * 2)
unfolding next_delay
next_delay-false d = ground arith

failing : (n d : ℕ) → d ≤ 60 → delay_after (replicate n false) d ≡ min (d * 2 ^ n) 60
unfolding delay_after
failing zero d h = omega arith
failing (suc n) d h = elim (next_delay-false d) [
  | inl (q, l) ↦
      ap (delay_after (replicate n false)) q
      ∙ failing n (d * 2) l
      ∙ ap (λ x. min x 60) (sym (doubled d (2 ^ n)) ∙ ap (λ x. d * x) (sym (pow_suc n)))
  | inr (q, l) ↦
      let big : 60 ≤ 60 * 2 ^ n = large 60 (2 ^ n) (pow_pos n) (omega arith) in
      let big' : 60 ≤ d * 2 * 2 ^ n = large (d * 2) (2 ^ n) (pow_pos n) l in
      let e : (d * 2 ^ suc n) ≡ (d * 2 * 2 ^ n) = ap (λ x. d * x) (pow_suc n) ∙ doubled d (2 ^ n) in
      ap (delay_after (replicate n false)) q
      ∙ failing n 60 (omega arith)
      ∙ capped (60 * 2 ^ n) (d * 2 ^ suc n) big (rw e big')
]

-- After any drains, the last of them healthy, and then a number of failing ones, the delay has
-- doubled from its base with each of these, up to its maximum.
pub delay_after_lem :
    (hs : List Bool) (n d : ℕ)
    → delay_after (hs ++ true ∷ replicate n false) d
      ≡ min (flush_retry_base * 2 ^ n) flush_retry_max
unfolding delay_after next_delay
delay_after_lem hs n d =
    delay_after-append hs (true ∷ replicate n false) d ∙ failing n 5 (omega arith)

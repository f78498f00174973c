-- ===== src/Retention/Retry.antt =====
-- The retry policy of the checkpoint (internal/retention/worker.go).
use hoptrail.Common.{
  ℕ, zero, suc, ◌+◌, ◌-◌, ◌≤◌, ◌≡◌, refl, sym, ap, ◌⊎◌, inl, inr, Bool, true, false, Option, none,
  some, arith, Bool-cases, Option-cases,
}
use hoptrail.Retention.{retry, checkpoint_with_retry}

-- All attempts from `first` up to `last` fail without the context ending.
unfoldable pub AllFail : (ℕ → Option ℕ) → (ℕ → Bool) → ℕ → ℕ → Type 0
AllFail run cancelled first zero = true ≡ true
AllFail run cancelled first (suc n) =
    (run first ≡ none) × (cancelled first ≡ false) × AllFail run cancelled (suc first) n

-- The retries end with the attempt `last`, `k` after the first, at most `n` after it; the ones before
-- failed, and this one is the last possible one, or succeeds, or the context has ended.
abbrev pub Ends : ℕ → ℕ → (ℕ → Option ℕ) → (ℕ → Bool) → Option ℕ × ℕ → Type 0
Ends n first run cancelled r =
    (k : ℕ) × (last : ℕ) × (last ≡ first + k)
    × (r ≡ (run last, last))
    × (k ≤ n)
    × AllFail run cancelled first k
    × ((k ≡ n) ⊎ ((m : ℕ) × (run last ≡ some m)) ⊎ (cancelled last ≡ true))

retry-Ends :
    (n first : ℕ) (run : ℕ → Option ℕ) (cancelled : ℕ → Bool)
    → Ends n first run cancelled (retry n run cancelled first)
unfolding retry AllFail
retry-Ends zero first run cancelled = (0, first, omega arith, refl, omega arith, refl, inl refl)
retry-Ends (suc n) first run cancelled = elim (Option-cases (run first)) [
  | inl e ↦ elim (Bool-cases (cancelled first)) [
    | inl c ↦
        rw (e, c)
          (0, first, omega arith, ap (λ o. (o, first)) (sym e), omega arith, refl, inr (inr c))
    | inr c ↦
        let (k, last, q, r, l, a, f) = retry-Ends n (suc first) run cancelled in
        rw (e, c)
          (
            suc k,
            last,
            omega (arith, q),
            r,
            omega (arith, l),
            (e, c, a),
            elim f [ inl z ↦ inl (ap suc z) | inr g ↦ inr g ],
          )
  ]
  | inr (m, e) ↦
      rw e
        (0, first, omega arith, ap (λ o. (o, first)) (sym e), omega arith, refl, inr (inl (m, e)))
]

-- A checkpoint is tried at least once and, with a positive bound, at most that often; its result is
-- that of its last attempt, all attempts before that one failed without the context ending, and it
-- gives up a failing one only at the bound or once the context has ended.
pub checkpoint_with_retry_lem :
    (max_attempts : ℕ) (run : ℕ → Option ℕ) (cancelled : ℕ → Bool)
    → Ends (max_attempts - 1) 1 run cancelled (checkpoint_with_retry max_attempts run cancelled)
unfolding checkpoint_with_retry
checkpoint_with_retry_lem max_attempts run cancelled = retry-Ends (max_attempts - 1) 1 run cancelled

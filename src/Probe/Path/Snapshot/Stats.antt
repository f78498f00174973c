-- ===== src/Probe/Path/Snapshot/Stats.antt =====
-- The round-trip summary of one hop (`snapshot` of internal/probe/path.go).
use native.Mathlib.Nat.{le-div_iff_mul-le, div-le_of_le-mul}
use hoptrail.Common.{
  ℕ, ◌+◌, ◌*◌, ◌≤◌, ◌<◌, ◌≡◌, refl, ◌⊎◌, inl, inr, false, ap, ◌||◌, lt→ltb, List, [], ◌∷◌, arith,
  ltb, ◌==◌, if◌then◌else◌, Bool-cases, All, length, get_or,
}
use hoptrail.Probe.Path.Snapshot.{RttStats, no_stats, add_rtt, rtt_stats, rtt_summary}

-- The responses of a list that is oldest first, newest first, in front of those of before: an entry
-- of 0 is a timeout.
abbrev pub responses : List ℕ → List ℕ → List ℕ
responses before [] = before
responses before (r ∷ rs) = responses (if ltb 0 r then r ∷ before else before) rs

abbrev pub total : List ℕ → ℕ
total [] = 0
total (x ∷ xs) = x + total xs

-- The loop's variables in terms of the responses so far, newest first.
record Describes (a : RttStats) (xs : List ℕ) : Type 0 where
  sum : a.sum ≡ total xs
  count : a.count ≡ length xs
  last : a.last ≡ get_or xs 0 0
  least : All (λ x. a.min ≤ x) xs
  started : ((a.min ≡ 0) × (xs ≡ [])) ⊎ ((0 < a.min) × (0 < length xs))

All-mono : (m n : ℕ) (xs : List ℕ) → m ≤ n → All (λ x. n ≤ x) xs → All (λ x. m ≤ x) xs
All-mono m n [] h all = tt
All-mono m n (x ∷ xs) h (p, all) = (omega arith, All-mono m n xs h all)

-- The new minimum.
least_next :
    (m r : ℕ) (xs : List ℕ)
    → ((m ≡ 0) × (xs ≡ [])) ⊎ ((0 < m) × (0 < length xs))
    → All (λ x. m ≤ x) xs
    → All (λ x. (if m == 0 || ltb r m then r else m) ≤ x) (r ∷ xs)
least_next m r [] h all = ground arith
least_next m r (x ∷ xs) (inl (_, e)) all = cc
least_next m r (x ∷ xs) (inr (p, _)) all = (ground arith, All-mono _ m (x ∷ xs) (ground arith) all)

add_rtt-Describes :
    (a : RttStats) (r : ℕ) (xs : List ℕ)
    → Describes a xs
    → Describes (add_rtt a r) (if ltb 0 r then r ∷ xs else xs)
unfolding add_rtt
add_rtt-Describes a r xs h = elim (Bool-cases (ltb 0 r)) [
  | inl e ↦ rw e record {
    sum = omega (arith, h.sum);
    count = omega (arith, h.count);
    last = refl;
    least = least_next a.min r xs h.started h.least;
    started = inr (ground (arith, h.started), omega arith);
  }
  | inr e ↦ rw e h
]

rtt_stats-Describes :
    (a : RttStats) (rs xs : List ℕ) → Describes a xs → Describes (rtt_stats a rs) (responses xs rs)
unfolding rtt_stats
rtt_stats-Describes a [] xs h = h
rtt_stats-Describes a (r ∷ rs) xs h =
    rtt_stats-Describes (add_rtt a r) rs _ (add_rtt-Describes a r xs h)

total-ge : (m : ℕ) (xs : List ℕ) → All (λ x. m ≤ x) xs → m * length xs ≤ total xs
total-ge m [] h = omega arith
total-ge m (x ∷ xs) (p, h) = omega (arith, total-ge m xs h)

total-le : (b : ℕ) (xs : List ℕ) → All (λ x. x ≤ b) xs → total xs ≤ b * length xs
total-le b [] h = omega arith
total-le b (x ∷ xs) (p, h) = omega (arith, total-le b xs h)

-- The summary of a window of round-trip times, oldest first with 0 for a timeout. Without any
-- response all three numbers are 0. Otherwise the current one is the newest response, the minimum is
-- positive and at most every response, and the average lies between the minimum and every upper
-- bound of the responses.
pub rtt_summary_lem :
    (rtts : List ℕ)
    → let xs = responses [] rtts in
      let (avg, current, least) = rtt_summary rtts in
      ((xs ≡ []) × (avg ≡ 0) × (current ≡ 0) × (least ≡ 0))
      ⊎ ((current ≡ get_or xs 0 0)
          × (0 < least)
          × All (λ x. least ≤ x) xs
          × (least ≤ avg)
          × ((b : ℕ) → All (λ x. x ≤ b) xs → avg ≤ b))
unfolding rtt_summary
rtt_summary_lem rtts =
    let a = rtt_stats no_stats rtts in
    let xs = responses [] rtts in
    let d =
      rtt_stats-Describes no_stats rtts []
        record { sum = refl; count = refl; last = refl; least = tt; started = inl (refl, refl) } in
    elim d.started [
      | inl (p, e) ↦
          let z : ltb 0 a.count ≡ false = ground (arith, d.count, ap length e) in
          rw z (inl (e, refl, refl, refl))
      | inr (p, q) ↦
          let pos : 0 < a.count = omega (arith, d.count) in
          rw (lt→ltb 0 a.count pos) (
            inr (
              d.last,
              p,
              d.least,
              (le-div_iff_mul-le pos).1 (rw (d.count, d.sum) (total-ge a.min xs d.least)),
              λ b h.
                  div-le_of_le-mul a.count
                    (rw d.sum (omega (arith, d.count, total-le b xs h, ap (λ n. b * n) d.count))),
            ))
    ]

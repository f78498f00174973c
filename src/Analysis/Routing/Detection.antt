-- ===== src/Analysis/Routing/Detection.antt =====
-- When `DetectRouteChange` (internal/analysis/routing.go) reports a change.
use hoptrail.Common.{
  not, ◌&&◌, ◌∙◌, leb, leb→le, Option-cases, ℕ, zero, suc, ◌≤◌, ◌<◌, ◌≡◌, ◌≢◌, ◌↔◌, refl, sym, ap,
  Bool, true, false, none, some, List, [], ◌∷◌, arith, length, take, replicate, if◌then◌else◌, inl,
  inr, Bool-cases,
}
use hoptrail.Common.Addr.{Addr, invalid, host, is_valid, same, same_iff}
use hoptrail.Common.Int.{ℤ, at_least_one}
use hoptrail.Analysis.RingBuffer.Inv.{at_least_one_pos}
use hoptrail.Analysis.Routing.{first_valid, count_run, detect_route_change}

-- What was actually seen: the observations without the anonymous ones.
abbrev pub sightings : List Addr → List Addr
sightings [] = []
sightings (o ∷ os) = let rest = sightings os in if is_valid o then o ∷ rest else rest

pub length-sightings : (os : List Addr) → length (sightings os) ≤ length os
length-sightings [] = omega arith
length-sightings (invalid ∷ os) = omega (arith, length-sightings os)
length-sightings (host n ∷ os) = omega (arith, length-sightings os)

first_valid-sightings : (os : List Addr) → first_valid (sightings os) ≡ first_valid os
first_valid-sightings [] = refl
first_valid-sightings (invalid ∷ os) = first_valid-sightings os
first_valid-sightings (host n ∷ os) = refl

count_run-sightings : (c : Addr) (os : List Addr) → count_run c (sightings os) ≡ count_run c os
count_run-sightings c [] = refl
count_run-sightings c (invalid ∷ os) = count_run-sightings c os
count_run-sightings c (host n ∷ os) = ground (arith, count_run-sightings c os)

-- A run is as long as `t` exactly when the first `t` sightings are all the candidate.
count_run_iff :
    (t n : ℕ) (os : List Addr)
    → (t ≤ count_run (host n) os) ↔ (take t (sightings os) ≡ replicate t (host n))
count_run_iff zero n os = ((λ h. refl), (λ h. omega arith))
count_run_iff (suc t) n [] = ((λ h. absurd (omega arith)), (λ h. cc))
count_run_iff (suc t) n (invalid ∷ os) = count_run_iff (suc t) n os
count_run_iff (suc t) n (host m ∷ os) =
    (λ h. ground (arith, (count_run_iff t n os).0), λ h. ground (arith, (count_run_iff t n os).1))

-- The candidate is the newest sighting.
first_valid-none : (os : List Addr) → first_valid os ≡ none → sightings os ≡ []
first_valid-none [] h = refl
first_valid-none (invalid ∷ os) h = first_valid-none os h
first_valid-none (host n ∷ os) h = cc

first_valid-some :
    (os : List Addr) (c : Addr)
    → first_valid os ≡ some c
    → (n : ℕ) × (c ≡ host n) × (rest : List Addr) × (sightings os ≡ host n ∷ rest)
first_valid-some [] c h = cc
first_valid-some (invalid ∷ os) c h = first_valid-some os c h
first_valid-some (host n ∷ os) c h = (n, cc, sightings os, refl)

-- Anonymous observations neither confirm nor break a run: the verdict is the one on the sightings
-- alone.
pub detect_route_change-sightings :
    (os : List Addr) (current : Addr) (t : ℤ)
    → detect_route_change (sightings os) current t ≡ detect_route_change os current t
unfolding detect_route_change
detect_route_change-sightings os current t = elim (Option-cases (first_valid os)) [
  | inl e ↦ rw (detect_route_change, first_valid-sightings os, e)
  | inr (c, e) ↦ rw (detect_route_change, first_valid-sightings os, e, count_run-sightings c os)
]

detects :
    (os : List Addr) (current c : Addr) (t : ℤ)
    → first_valid os ≡ some c
    → detect_route_change os current t ≡ (
        if leb (at_least_one t) (count_run c os) && not (same c current)
        then (true, c)
        else (false, invalid))
unfolding detect_route_change
detects os current c t h = rw (detect_route_change, h)

head_of_run :
    (t n : ℕ) (os : List Addr)
    → 0 < t
    → take t (sightings os) ≡ replicate t (host n)
    → first_valid os ≡ some (host n)
head_of_run zero n os p h = absurd (omega arith)
head_of_run (suc t) n [] p h = cc
head_of_run (suc t) n (invalid ∷ os) p h = head_of_run (suc t) n os p h
head_of_run (suc t) n (host m ∷ os) p h = cc

le→leb : (a b : ℕ) → a ≤ b → leb a b ≡ true
le→leb a b h = ground arith

same_of_ne : (a b : Addr) → a ≢ b → same a b ≡ false
same_of_ne a b h = elim (Bool-cases (same a b)) [
  | inl e ↦ absurd (h ((same_iff a b).0 e))
  | inr e ↦ e
]

fires_iff :
    (b s : Bool) (c : Addr) (n : ℕ)
    → (◌≡◌ {A = Bool × Addr} (if b && not s then (true, c) else (false, invalid)) (true, host n))
      ↔ ((b ≡ true) × (s ≡ false) × (c ≡ host n))
fires_iff b s c n = ground arith

detect_route_change_sound :
    (os : List Addr) (current : Addr) (t : ℤ) (n : ℕ)
    → detect_route_change os current t ≡ (true, host n)
    → (take (at_least_one t) (sightings os) ≡ replicate (at_least_one t) (host n))
      × (host n ≢ current)
unfolding detect_route_change
detect_route_change_sound os current t n h = elim (Option-cases (first_valid os)) [
  | inl e ↦ cc (rw (detect_route_change, e) at h)
  | inr (c, e) ↦
      let (p, q, r) = (fires_iff _ _ c n).0 (rw (detects os current c t e) at h) in
      let p' : leb (at_least_one t) (count_run (host n) os) ≡ true = rw (← r) p in
      (
        (count_run_iff (at_least_one t) n os).0 (leb→le _ _ p'),
        λ s. cc ((same_iff c current).1 (r ∙ s)),
      )
]

detect_route_change_complete :
    (os : List Addr) (current : Addr) (t : ℤ) (n : ℕ)
    → (take (at_least_one t) (sightings os) ≡ replicate (at_least_one t) (host n))
      × (host n ≢ current)
    → detect_route_change os current t ≡ (true, host n)
detect_route_change_complete os current t n (h, ne) =
    detects os current (host n) t (head_of_run (at_least_one t) n os (at_least_one_pos t) h)
    ∙ (fires_iff _ _ (host n) n).1 (
      le→leb _ _ ((count_run_iff (at_least_one t) n os).1 h),
      same_of_ne (host n) current ne,
      refl,
    )

-- A change to the address `n` is reported exactly when the newest sightings, as many as the
-- threshold (clamped to at least 1) asks for, exist and are all that address, and it is not the one
-- that the hop displays.
pub detect_route_change_iff :
    (os : List Addr) (current : Addr) (t : ℤ) (n : ℕ)
    → (detect_route_change os current t ≡ (true, host n)) ↔ (
        (take (at_least_one t) (sightings os) ≡ replicate (at_least_one t) (host n))
        × (host n ≢ current))
detect_route_change_iff os current t n =
    (detect_route_change_sound os current t n, detect_route_change_complete os current t n)

count_run-le : (c : Addr) (os : List Addr) → count_run c os ≤ length os
count_run-le c [] = omega arith
count_run-le c (o ∷ os) = ground (arith, count_run-le c os)

-- Fewer observations than the threshold asks for never report a change.
pub short_history :
    (os : List Addr) (current : Addr) (t : ℤ)
    → length os < at_least_one t
    → detect_route_change os current t ≡ (false, invalid)
unfolding detect_route_change
short_history os current t h = elim (Option-cases (first_valid os)) [
  | inl e ↦ rw (detect_route_change, e)
  | inr (c, e) ↦ detects os current c t e ∙ ground (arith, count_run-le c os)
]

reported :
    {r : Bool × Addr} (b : Bool) (c : Addr) (n : ℕ)
    → r ≡ (if b then (true, c) else (false, invalid))
    → c ≡ host n
    → r.0 ≡ true
    → r ≡ (true, host n)
reported true c n e p h = e ∙ ap (λ x. (true, x)) p
reported false c n e p h = cc (sym (ap (λ x. x.0) e) ∙ h)

-- What is reported is a valid address.
pub detected_valid :
    (os : List Addr) (current : Addr) (t : ℤ)
    → (detect_route_change os current t).0 ≡ true
    → (n : ℕ) × (detect_route_change os current t ≡ (true, host n))
unfolding detect_route_change
detected_valid os current t h = elim (Option-cases (first_valid os)) [
  | inl e ↦ cc (rw (detect_route_change, e) at h)
  | inr (c, e) ↦
      let (n, p, _, _) = first_valid-some os c e in
      (n, reported _ c n (detects os current c t e) p h)
]

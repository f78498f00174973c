-- ===== src/Analysis/Routing/Modal.antt =====
-- What `ModalIP` (internal/analysis/routing.go) returns.
use native.Mathlib.Nat.{le_trans}
use Prim.Native.Nat.{suc-le-suc}
use Prim.Native.Nat.add
use mathlib.Core.Path.{fun_ext}
use hoptrail.Common.{
  ℕ, ◌+◌, ◌≤◌, ◌<◌, ◌≡◌, ◌≢◌, ◌↔◌, refl, sym, ap, ◌∙◌, ◌⊎◌, inl, inr, true, false, ◌&&◌, List, [],
  ◌∷◌, arith, length, ltb, if◌then◌else◌, Bool-cases, All,
}
use hoptrail.Common.Addr.{Addr, invalid, host, is_valid, same, same_iff, same_refl}
use hoptrail.Analysis.Routing.{Counts, get_count, bump, tally, pick, modal_ip}
use hoptrail.Analysis.Routing.Detection.{sightings}

-- How often an address was seen.
abbrev pub occurrences : List Addr → Addr → ℕ
occurrences [] a = 0
occurrences (o ∷ os) a =
    let rest = occurrences os a in if is_valid o && same o a then rest + 1 else rest

get_count-bump :
    (m : Counts) (a b : Addr)
    → get_count (bump m a) b ≡ (if same a b then get_count m b + 1 else get_count m b)
unfolding get_count bump
get_count-bump [] a b = ground arith
get_count-bump ((c, n) ∷ m) a b =
    ground (arith, same_iff c a, same_iff c b, same_iff a b, get_count-bump m a b)

get_count-tally :
    (m : Counts) (os : List Addr) (a : Addr)
    → get_count (tally m os) a ≡ get_count m a + occurrences os a
unfolding tally
get_count-tally m [] a = omega arith
get_count-tally m (invalid ∷ os) a = get_count-tally m os a
get_count-tally m (host n ∷ os) a =
    ground (arith, get_count-tally (bump m (host n)) os a, get_count-bump m (host n) a)

-- `m` is the most recent of the addresses seen most often: each valid entry before its first
-- occurrence was seen less often.
abbrev pub FirstBest : (Addr → ℕ) → Addr → List Addr → Type 0
FirstBest f m [] = ⊥
FirstBest f m (o ∷ os) =
    ((is_valid o ≡ true) × (o ≡ m)) ⊎ ((is_valid o ≡ true → f o < f m) × FirstBest f m os)

abbrev pub MostSeen : (Addr → ℕ) → Addr → List Addr → Type 0
MostSeen f m = All (λ o. is_valid o ≡ true → f o ≤ f m)

-- What the last loop does with the best address so far.
Picked : (Addr → ℕ) → List Addr → Addr → Addr → Type 0
Picked f os modal r =
    (f modal ≤ f r) × MostSeen f r os × ((r ≡ modal) ⊎ ((f modal < f r) × FirstBest f r os))

Picked-better :
    (f : Addr → ℕ) (os : List Addr) (o modal r : Addr)
    → is_valid o ≡ true
    → f modal < f o
    → Picked f os o r
    → Picked f (o ∷ os) modal r
unfolding Picked
Picked-better f os o modal r v lt (p, q, inl e) =
    (omega arith, ((λ _. p), q), inr (omega arith, inl (v, sym e)))
Picked-better f os o modal r v lt (p, q, inr (h, b)) =
    (omega arith, ((λ _. p), q), inr (omega arith, inr ((λ _. h), b)))

Picked-skip :
    (f : Addr → ℕ) (os : List Addr) (o modal r : Addr)
    → (is_valid o ≡ true → f o ≤ f modal)
    → Picked f os modal r
    → Picked f (o ∷ os) modal r
unfolding Picked
Picked-skip f os o modal r le (p, q, inl e) = (p, ((λ v. le_trans (le v) p), q), inl e)
Picked-skip f os o modal r le (p, q, inr (h, b)) =
    (p, ((λ v. le_trans (le v) p), q), inr (h, inr ((λ v. le_trans (suc-le-suc (le v)) h), b)))

pick-Picked :
    (counts : Counts) (os : List Addr) (best : ℕ) (modal : Addr)
    → best ≡ get_count counts modal
    → Picked (get_count counts) os modal (pick counts os best modal)
unfolding pick
pick-Picked counts [] best modal e = unfold Picked in (omega arith, tt, inl refl)
pick-Picked counts (o ∷ os) best modal e =
    elim (Bool-cases (is_valid o && ltb best (get_count counts o))) [
      | inl b ↦ rw b (
          Picked-better (get_count counts) os o modal (pick counts os (get_count counts o) o)
            (ground arith) (ground arith) (pick-Picked counts os (get_count counts o) o refl))
      | inr b ↦ rw b (
          Picked-skip (get_count counts) os o modal (pick counts os best modal) (λ v. ground arith)
            (pick-Picked counts os best modal e))
    ]

occurrences_anonymous : (os : List Addr) → occurrences os invalid ≡ 0
occurrences_anonymous [] = refl
occurrences_anonymous (invalid ∷ os) = occurrences_anonymous os
occurrences_anonymous (host n ∷ os) = occurrences_anonymous os

-- Something was counted exactly when something was seen.
length-bump : (m : Counts) (a : Addr) → 0 < length (bump m a)
unfolding bump
length-bump [] a = omega arith
length-bump ((b, n) ∷ m) a = ground arith

length-tally_pos : (m : Counts) (os : List Addr) → 0 < length m → 0 < length (tally m os)
unfolding tally
length-tally_pos m [] h = h
length-tally_pos m (invalid ∷ os) h = length-tally_pos m os h
length-tally_pos m (host n ∷ os) h = length-tally_pos (bump m (host n)) os (length-bump m (host n))

pub tally_empty_iff : (os : List Addr) → (length (tally [] os) ≡ 0) ↔ (sightings os ≡ [])
unfolding tally
tally_empty_iff [] = ((λ _. refl), (λ _. refl))
tally_empty_iff (invalid ∷ os) = tally_empty_iff os
tally_empty_iff (host n ∷ os) = (
  (λ h. absurd (omega (arith, length-tally_pos (bump [] (host n)) os (length-bump [] (host n))))),
  (λ h. cc),
)

-- `modal_ip` finds an address exactly when something was seen.
modal_ip-found : (os : List Addr) → ((modal_ip os).1 ≡ false) ↔ (sightings os ≡ [])
unfolding modal_ip
modal_ip-found os = ground (arith, (tally_empty_iff os).0, (tally_empty_iff os).1)

-- The newest sighting, if there is one, was seen at least once, and at most as often as an address
-- seen most often.
first_sighting :
    (f : Addr → ℕ) (m : Addr) (os : List Addr)
    → MostSeen f m os
    → (sightings os ≡ []) ⊎ ((n : ℕ) × (0 < occurrences os (host n)) × (f (host n) ≤ f m))
first_sighting f m [] h = inl refl
first_sighting f m (invalid ∷ os) h = first_sighting f m os h.1
first_sighting f m (host n ∷ os) h = inr (n, ground (arith, same_refl (host n)), h.0 refl)

chosen :
    (os : List Addr) (m : Addr)
    → length (tally [] os) ≢ 0
    → Picked (occurrences os) os invalid m
    → FirstBest (occurrences os) m os × MostSeen (occurrences os) m os
unfolding Picked
chosen os m ne (p, q, inr (h, b)) = (b, q)
chosen os m ne (p, q, inl e) = elim (first_sighting (occurrences os) m os q) [
  | inl s ↦ absurd (ne ((tally_empty_iff os).1 s))
  | inr (n, pos, le) ↦ absurd (omega (arith, ap (occurrences os) e, occurrences_anonymous os))
]

-- If `modal_ip` reports an address, that address was seen, no address was seen more often, and
-- every address whose sighting is more recent than its most recent one was seen less often. It
-- reports none exactly when every observation is anonymous.
pub modal_ip_lem :
    (os : List Addr)
    → (((modal_ip os).1 ≡ false) ↔ (sightings os ≡ []))
      × ((m : Addr)
          → modal_ip os ≡ (m, true)
          → FirstBest (occurrences os) m os × MostSeen (occurrences os) m os)
unfolding modal_ip
modal_ip_lem os = (modal_ip-found os, λ m h. chosen os m (ground arith) (picked m (ground arith)))
  where
    counts_lem : get_count (tally [] os) ≡ occurrences os
    counts_lem =
        fun_ext λ a. get_count-tally [] os a ∙ unfold get_count in add.zero (occurrences os a)

    picked : (m : Addr) → pick (tally [] os) os 0 invalid ≡ m → Picked (occurrences os) os invalid m
    picked m e =
        rw (counts_lem, e) at
          (pick-Picked (tally [] os) os 0 invalid
            (sym (ap (λ f. f invalid) counts_lem ∙ occurrences_anonymous os)))

-- ===== src/Probe/Path/Apply.antt =====
-- What one observation does to a path's state (`ApplyProbeResult` of internal/probe/path.go).
use mathlib.Core.Path.{subst}
use hoptrail.Common.{
  ℕ, ◌≤◌, ◌<◌, ◌≡◌, ◌≢◌, sym, ap, ◌∙◌, ◌⊎◌, inl, inr, Option, none, some, List, ◌∷◌, arith, length,
  get_or, set, take, length-set, get_or-set_self, get_or-set_ne, take-cons, ◌||◌, Bool-cases,
  some-inj, ltb, ◌==◌, ==_iff,
}
use hoptrail.Common.Int.{ℤ, at_least_one}
use hoptrail.Common.Addr.{Addr, invalid, addr_zero}
use hoptrail.Analysis.RingBuffer.{cap, newest_first}
use hoptrail.Analysis.RingBuffer.Inv.{at_least_one_pos}
use hoptrail.Analysis.RingBuffer.Refine.{newest_first-push}
use hoptrail.Probe.Events.{ProbeResult, Sample, RouteChange}
use hoptrail.Probe.Path.{
  Hop, PathState, max_ttl, get_or_create_hop, observe, settle, update, apply_probe_result,
}
use hoptrail.Probe.Path.Inv.{
  PathInv, HopShape, Identified, found_hop, observe-HopShape, settle-HopShape, settle-Identified,
  settle_lem, observe_lem, candidate_of, next_target_ttl-le,
}

slot_lem :
    (hops : List (Option Hop)) (i j : ℕ) (h : Hop)
    → i < length hops
    → ((i ≡ j) × (get_or (set hops i (some h)) j none ≡ some h))
      ⊎ ((i ≢ j) × (get_or (set hops i (some h)) j none ≡ get_or hops j none))
slot_lem hops i j h lt = elim (Bool-cases (i == j)) [
  | inl e ↦
      let p = (==_iff i j).0 e in
      inl (
        p,
        subst (λ k. get_or (set hops i (some h)) k none ≡ some h) p
            (get_or-set_self hops i (some h) none lt),
      )
  | inr e ↦
      let ne : i ≢ j = λ p. cc (sym e ∙ (==_iff i j).1 p) in
      inr (ne, get_or-set_ne hops (some h) none ne)
]

-- A property of hops that the observed hop has, and that all others had, holds of every hop after.
at_hops :
    (P : ℕ → Hop → Type 0) (s : PathState) (r : ProbeResult) (t : ℤ)
    → r.ttl < length s.hops
    → ((ttl : ℕ) (hop : Hop) → get_or s.hops ttl none ≡ some hop → P ttl hop)
    → P r.ttl (settle s (observe (get_or_create_hop s r.ttl) r) r t).0
    → (ttl : ℕ) (hop : Hop) → get_or (update s r t).0.hops ttl none ≡ some hop
    → P ttl hop
unfolding update
at_hops P s r t lt old new ttl hop e =
    let h = (settle s (observe (get_or_create_hop s r.ttl) r) r t).0 in
    elim (slot_lem s.hops r.ttl ttl h lt) [
      | inl (p, q) ↦ subst (λ k. P k hop) p (subst (P r.ttl) (some-inj (sym q ∙ e)) new)
      | inr (p, q) ↦ old ttl hop (sym q ∙ e)
    ]

pub update-PathInv :
    (s : PathState) (r : ProbeResult) (t : ℤ)
    → PathInv s
    → r.ttl ≤ max_ttl
    → PathInv (update s r t).0
unfolding update
update-PathInv s r t inv le =
    let (shape, _) = found_hop s r.ttl inv in
    let hop = observe (get_or_create_hop s r.ttl) r in
    let lt : r.ttl < length s.hops = omega (arith, inv.slots) in
    record {
      slots = length-set s.hops r.ttl _ ∙ inv.slots;
      max_seen_in = ground (arith, inv.max_seen_in);
      target_ttl_in = next_target_ttl-le r.reply r.ttl s.target_ttl le inv.target_ttl_in;
      shapes =
          at_hops (HopShape s.candidates_cap s.samples_cap) s r t lt inv.shapes
            (settle-HopShape s hop r t _ _ r.ttl (observe-HopShape _ _ r.ttl _ r shape));
      identities = at_hops (λ _. Identified) s r t lt inv.identities (settle-Identified s hop r t);
    }

-- The observed hop as it stands afterwards.
abbrev pub settled : PathState → ProbeResult → ℤ → Hop
settled s r t = (settle s (observe (get_or_create_hop s r.ttl) r) r t).0

pub slot_here :
    (s : PathState) (r : ProbeResult) (t : ℤ)
    → r.ttl < length s.hops
    → get_or (update s r t).0.hops r.ttl none ≡ some (settled s r t)
unfolding update
slot_here s r t lt = get_or-set_self s.hops r.ttl (some (settled s r t)) none lt

slot_other :
    (s : PathState) (r : ProbeResult) (t : ℤ) (ttl : ℕ)
    → ttl ≢ r.ttl
    → get_or (update s r t).0.hops ttl none ≡ get_or s.hops ttl none
unfolding update
slot_other s r t ttl ne = get_or-set_ne s.hops (some (settled s r t)) none (λ e. ne (sym e))

-- Its buffer holds the new candidate in front of the ones before.
pub settled_buffer :
    (s : PathState) (r : ProbeResult) (t : ℤ)
    → PathInv s
    → newest_first (settled s r t).candidates
      ≡ take
          (at_least_one s.candidates_cap)
          (candidate_of r ∷ newest_first (get_or_create_hop s r.ttl).candidates)
unfolding cap
settled_buffer s r t inv =
    let old = get_or_create_hop s r.ttl in
    let (shape, _) = found_hop s r.ttl inv in
    let (valid, size) = shape.candidates_ok in
    ap (λ h. newest_first h.candidates) (settle_lem s (observe old r) r t)
    ∙ ap newest_first (observe_lem old r).1
    ∙ newest_first-push old.candidates (candidate_of r) valid
    ∙ ap (λ n. take n (candidate_of r ∷ newest_first old.candidates)) size

take-first :
    (c : ℤ) (a : Addr) (os : List Addr) → get_or (take (at_least_one c) (a ∷ os)) 0 invalid ≡ a
take-first c a os =
    ap (λ xs. get_or xs 0 invalid) (take-cons (at_least_one c) a os (at_least_one_pos c))

-- `ApplyProbeResult` panics exactly on a TTL of 0 or above the ceiling.
pub apply_cases :
    (s : PathState) (r : ProbeResult) (t : ℤ)
    → ((apply_probe_result s r t ≡ none) × ((r.ttl ≡ 0) ⊎ (max_ttl < r.ttl)))
      ⊎ ((apply_probe_result s r t ≡ some (update s r t)) × (0 < r.ttl) × (r.ttl ≤ max_ttl))
unfolding apply_probe_result
apply_cases s r t = elim (Bool-cases (r.ttl == 0 || ltb max_ttl r.ttl)) [
  | inl e ↦ inl (rw e, ground arith)
  | inr e ↦ inr (rw e, ground arith, ground arith)
]

module _ (s : PathState) (r : ProbeResult) (t : ℤ) {s' : PathState} {sample : Sample}
    {rc : Option RouteChange} (applied : apply_probe_result s r t ≡ some (s', sample, rc)) where
  pub applied_lem : (update s r t ≡ (s', sample, rc)) × (0 < r.ttl) × (r.ttl ≤ max_ttl)
  applied_lem = elim (apply_cases s r t) [
    | inl (p, q) ↦ cc
    | inr (p, q, u) ↦ (some-inj (sym p ∙ applied), q, u)
  ]

  -- An observation that is applied keeps the invariant of the path's state.
  pub apply_probe_result-PathInv : PathInv s → PathInv s'
  apply_probe_result-PathInv inv =
      let (e, _, le) = applied_lem in subst PathInv (ap (λ x. x.0) e) (update-PathInv s r t inv le)

  -- An observation leaves every other hop of the path as it was; the hop at its own TTL exists
  -- afterwards, and its newest candidate is the address that answered, or none for a miss.
  pub apply_probe_result_local :
      PathInv s
      → ((ttl : ℕ) → ttl ≢ r.ttl → get_or s'.hops ttl none ≡ get_or s.hops ttl none)
        × (hop : Hop) × (get_or s'.hops r.ttl none ≡ some hop)
        × (get_or (newest_first hop.candidates) 0 invalid ≡ candidate_of r)
  apply_probe_result_local inv =
      let (e, _, le) = applied_lem in
      let lt : r.ttl < length s.hops = omega (arith, inv.slots) in
      (
        (λ ttl ne.
            subst (λ p. get_or p.hops ttl none ≡ get_or s.hops ttl none) (ap (λ x. x.0) e)
              (slot_other s r t ttl ne)),
        settled s r t,
        subst (λ p. get_or p.hops r.ttl none ≡ some (settled s r t)) (ap (λ x. x.0) e)
            (slot_here s r t lt),
        ap (λ xs. get_or xs 0 invalid) (settled_buffer s r t inv) ∙ take-first s.candidates_cap _ _,
      )

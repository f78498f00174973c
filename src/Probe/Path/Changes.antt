-- ===== src/Probe/Path/Changes.antt =====
-- Which route changes an observation emits (internal/probe/path.go).
use hoptrail.Common.{
  ℕ, ◌≤◌, ◌≡◌, ◌≢◌, refl, sym, ap, ◌∙◌, inl, inr, true, Option, none, some, List, [], ◌∷◌, arith,
  length, get_or, take, replicate, length-take, length-replicate, Bool-cases, Option-cases,
}
use hoptrail.Common.Int.{ℤ, at_least_one}
use hoptrail.Common.Addr.{Addr, invalid, host, is_valid, addr_zero}
use hoptrail.Analysis.RingBuffer.{newest_first}
use hoptrail.Analysis.Routing.{detect_route_change}
use hoptrail.Analysis.Routing.Detection.{
  sightings, length-sightings, detect_route_change_iff, detected_valid,
}
use hoptrail.Probe.Events.{ProbeResult, Sample, RouteChange}
use hoptrail.Probe.Path.{
  Hop, PathState, fresh_hop, get_or_create_hop, observe, settle, update, apply_probe_result,
}
use hoptrail.Probe.Path.Inv.{
  PathInv, found_hop, observe_lem, candidate_of, settle_lem, sightings-take_cons,
}
use hoptrail.Probe.Path.Apply.{applied_lem, settled, settled_buffer, slot_here}

-- The identity that a path displays at a TTL.
abbrev pub identity_of : Option Hop → Addr
identity_of none = invalid
identity_of (some h) = h.current_ip

abbrev pub displayed : PathState → ℕ → Addr
displayed s ttl = identity_of (get_or s.hops ttl none)

abbrev pub candidates_of : Option Hop → List Addr
candidates_of none = []
candidates_of (some h) = newest_first h.candidates

-- The candidates held at a TTL, newest first.
abbrev pub history : PathState → ℕ → List Addr
history s ttl = candidates_of (get_or s.hops ttl none)

displayed_lem : (s : PathState) (ttl : ℕ) → (get_or_create_hop s ttl).current_ip ≡ displayed s ttl
unfolding get_or_create_hop fresh_hop
displayed_lem s ttl = elim (Option-cases (get_or s.hops ttl none)) [
  | inl e ↦ rw (get_or_create_hop, e)
  | inr (h, e) ↦ rw (get_or_create_hop, e)
]

-- What the detector found, when settling a hop emits a change.
record Emitted (hop : Hop) (r : ProbeResult) (t : ℤ) (rc : RouteChange) (after : Hop) : Type 0 where
  number : ℕ
  fired : detect_route_change (newest_first hop.candidates) hop.current_ip t ≡ (true, host number)
  new_ip : rc.new_ip ≡ host number
  shown : after.current_ip ≡ host number
  old_ip : rc.old_ip ≡ hop.current_ip
  ttl : rc.ttl ≡ r.ttl
  ts : rc.ts ≡ r.ts

settle-Emitted :
    (s : PathState) (hop : Hop) (r : ProbeResult) (t : ℤ) (rc : RouteChange)
    → (settle s hop r t).1 ≡ some rc
    → Emitted hop r t rc (settle s hop r t).0
unfolding settle
settle-Emitted s hop r t rc h =
    let os = newest_first hop.candidates in
    elim (Bool-cases (detect_route_change os hop.current_ip t).0) [
      | inl e ↦
          let (n, p) = detected_valid os hop.current_ip t e in
          record {
            number = n;
            fired = p;
            new_ip = ground (arith, p);
            shown = ground (arith, p);
            old_ip = ground (arith, p);
            ttl = ground (arith, p);
            ts = ground (arith, p);
          }
      | inr e ↦ cc (rw e at h)
    ]

module _ (s : PathState) (r : ProbeResult) (t : ℤ) {s' : PathState} {sample : Sample}
    {rc : RouteChange} (applied : apply_probe_result s r t ≡ some (s', sample, some rc)) where
  emitted : Emitted (observe (get_or_create_hop s r.ttl) r) r t rc (settled s r t)
  unfolding update
  emitted = settle-Emitted s _ r t rc (ap (λ x. x.2) (applied_lem s r t applied).0)

  after_slot : PathInv s → get_or s'.hops r.ttl none ≡ some (settled s r t)
  after_slot inv =
      let (e, _, le) = applied_lem s r t applied in
      ap (λ p. get_or p.0.hops r.ttl none) (sym e) ∙ slot_here s r t (omega (arith, inv.slots))

  -- An emitted route change names the TTL and the time of its observation, goes from the identity
  -- that the hop displayed before to a different, valid one that it displays afterwards, and the
  -- newest valid candidates that the hop then holds, as many as the threshold asks for, are all that
  -- address.
  pub route_change_sound :
      PathInv s
      → (rc.ttl ≡ r.ttl)
        × (rc.ts ≡ r.ts)
        × (rc.old_ip ≡ displayed s r.ttl)
        × (rc.new_ip ≡ displayed s' r.ttl)
        × (rc.new_ip ≢ rc.old_ip)
        × (is_valid rc.new_ip ≡ true)
        × (take (at_least_one t) (sightings (history s' r.ttl))
            ≡ replicate (at_least_one t) rc.new_ip)
  route_change_sound inv =
      let em = emitted in
      let hop = observe (get_or_create_hop s r.ttl) r in
      let run = (detect_route_change_iff _ _ t em.number).0 em.fired in
      let slot = after_slot inv in
      (
        em.ttl,
        em.ts,
        em.old_ip ∙ (observe_lem (get_or_create_hop s r.ttl) r).0 ∙ displayed_lem s r.ttl,
        em.new_ip ∙ sym em.shown ∙ ap identity_of (sym slot),
        (λ p. run.1 (sym em.new_ip ∙ p ∙ em.old_ip)),
        rw (em.new_ip) refl,
        ap (λ o. take (at_least_one t) (sightings (candidates_of o))) slot
            ∙ ap (λ h. take (at_least_one t) (sightings (newest_first h.candidates)))
                (settle_lem s hop r t)
            ∙ run.0
            ∙ ap (replicate (at_least_one t)) (sym em.new_ip),
      )

  run_length :
      PathInv s → at_least_one t ≤ length (sightings (newest_first (settled s r t).candidates))
  run_length inv =
      let hop = observe (get_or_create_hop s r.ttl) r in
      let run = ((detect_route_change_iff _ _ t emitted.number).0 emitted.fired).0 in
      let same = ap (λ h. length (sightings (newest_first h.candidates))) (settle_lem s hop r t) in
      omega (
        arith,
        same,
        ap length run,
        length-take (at_least_one t) (sightings (newest_first hop.candidates)),
        length-replicate (at_least_one t) (host emitted.number),
      )

  -- With a threshold of at least 2, no emitted route change starts from an anonymous hop: the hop
  -- already displays the first address that it was seen with.
  pub old_ip_valid : PathInv s → 2 ≤ at_least_one t → rc.old_ip ≢ invalid
  old_ip_valid inv two p =
      let old = get_or_create_hop s r.ttl in
      let anonymous =
        (found_hop s r.ttl inv).1 (sym (observe_lem old r).0 ∙ sym emitted.old_ip ∙ p) in
      omega (
        arith,
        run_length inv,
        ap (λ os. length (sightings os)) (settled_buffer s r t inv),
        sightings-take_cons (at_least_one s.candidates_cap) (candidate_of r)
            (newest_first old.candidates) anonymous,
      )

  -- A route change is emitted only if the buffer of candidates has room for as many sightings as the
  -- threshold asks for.
  pub change_needs_room : PathInv s → at_least_one t ≤ at_least_one s.candidates_cap
  change_needs_room inv =
      let os = newest_first (settled s r t).candidates in
      omega (
        arith,
        run_length inv,
        length-sightings os,
        ap length (settled_buffer s r t inv),
        length-take (at_least_one s.candidates_cap)
            (candidate_of r ∷ newest_first (get_or_create_hop s r.ttl).candidates),
      )

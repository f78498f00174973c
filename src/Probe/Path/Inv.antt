-- ===== src/Probe/Path/Inv.antt =====
-- The invariant of a path's state (internal/probe/path.go), kept by every observation.
use mathlib.Core.Path.{subst}
use Prim.Native.String.{String}
use hoptrail.Common.{
  replicate, length-replicate, ℕ, suc, ◌≤◌, ◌≡◌, ◌≢◌, refl, sym, ap, ◌∙◌, inl, inr, true, Option,
  none, some, List, [], ◌∷◌, arith, length, get_or, take, zero, if◌then◌else◌, Bool-cases,
  Option-cases, nat_zero, bool_zero,
}
use hoptrail.Common.Int.{ℤ, at_least_one}
use hoptrail.Common.Addr.{Addr, invalid, host, is_valid, addr_zero}
use hoptrail.Analysis.RingBuffer.{RingBuffer, push, newest_first, new_ring_buffer}
use hoptrail.Analysis.RingBuffer.Inv.{IsValid, push-IsValid, length-push, new_ring_buffer-IsValid}
use hoptrail.Analysis.Routing.{detect_route_change, modal_ip}
use hoptrail.Analysis.Routing.Detection.{sightings, detected_valid}
use hoptrail.Analysis.Routing.Modal.{FirstBest, modal_ip_lem}
use hoptrail.Probe.Events.{ReplyType, ProbeResult}
use hoptrail.Probe.Path.{
  Hop, PathState, max_ttl, is_miss, new_path_state_with_caps, fresh_hop, get_or_create_hop, observe,
  next_target_ttl, tentative, settle,
}

-- A ring buffer in order, of the capacity asked for.
abbrev pub Ring {ℓ} : {A : Type ℓ} → ℤ → RingBuffer A → Type 0
Ring c r = IsValid r × (length r.buf ≡ at_least_one c)

-- What every hop keeps: its place, and its three buffers.
pub record HopShape (candidates_cap samples_cap : ℤ) (ttl : ℕ) (hop : Hop) : Type 0 where
  pub place : hop.ttl ≡ ttl
  pub candidates_ok : Ring candidates_cap hop.candidates
  pub rtts_ok : Ring samples_cap hop.recent_rtts
  pub losses_ok : Ring samples_cap hop.recent_losses

abbrev pub seen : Hop → List Addr
seen hop = sightings (newest_first hop.candidates)

-- A hop has no identity only if its buffer shows nothing but anonymous observations.
abbrev pub Identified : Hop → Type 0
Identified hop = hop.current_ip ≡ invalid → seen hop ≡ []

pub record PathInv (s : PathState) : Type 0 where
  pub slots : length s.hops ≡ suc max_ttl
  pub max_seen_in : s.max_seen ≤ max_ttl
  pub target_ttl_in : s.target_ttl ≤ max_ttl
  pub shapes :
      (ttl : ℕ) (hop : Hop)
      → get_or s.hops ttl none ≡ some hop
      → HopShape s.candidates_cap s.samples_cap ttl hop
  pub identities : (ttl : ℕ) (hop : Hop) → get_or s.hops ttl none ≡ some hop → Identified hop

push-Ring {ℓ} : {A : Type ℓ} (c : ℤ) (r : RingBuffer A) (v : A) → Ring c r → Ring c (push r v)
push-Ring c r v (h, e) = (push-IsValid r v h, length-push r v ∙ e)

pub observe-HopShape :
    (c sc : ℤ) (ttl : ℕ) (hop : Hop) (r : ProbeResult)
    → HopShape c sc ttl hop
    → HopShape c sc ttl (observe hop r)
unfolding observe
observe-HopShape c sc ttl hop r h = elim (Bool-cases (is_miss r)) [
  | inl e ↦ rw e record {
    place = h.place;
    candidates_ok = push-Ring c _ _ h.candidates_ok;
    rtts_ok = push-Ring sc _ _ h.rtts_ok;
    losses_ok = push-Ring sc _ _ h.losses_ok;
  }
  | inr e ↦ rw e record {
    place = h.place;
    candidates_ok = push-Ring c _ _ h.candidates_ok;
    rtts_ok = push-Ring sc _ _ h.rtts_ok;
    losses_ok = push-Ring sc _ _ h.losses_ok;
  }
]

sightings-take : (n : ℕ) (os : List Addr) → sightings os ≡ [] → sightings (take n os) ≡ []
sightings-take zero os h = refl
sightings-take (suc n) [] h = refl
sightings-take (suc n) (invalid ∷ os) h = sightings-take n os h
sightings-take (suc n) (host a ∷ os) h = cc

pub sightings-take_cons :
    (n : ℕ) (o : Addr) (os : List Addr)
    → sightings os ≡ []
    → length (sightings (take n (o ∷ os))) ≤ 1
sightings-take_cons zero o os h = omega arith
sightings-take_cons (suc n) invalid os h = omega (arith, ap length (sightings-take n os h))
sightings-take_cons (suc n) (host a) os h = omega (arith, ap length (sightings-take n os h))

-- The candidates and the identity of a hop after one observation, before it settles.
abbrev pub candidate_of : ProbeResult → Addr
candidate_of r = if is_miss r then invalid else r.resp_ip

pub observe_lem :
    (hop : Hop) (r : ProbeResult)
    → ((observe hop r).current_ip ≡ hop.current_ip)
      × ((observe hop r).candidates ≡ push hop.candidates (candidate_of r))
unfolding observe
observe_lem hop r = ground arith

-- A modal address is valid.
FirstBest-valid : (f : Addr → ℕ) (m : Addr) (os : List Addr) → FirstBest f m os → is_valid m ≡ true
FirstBest-valid f m [] h = absurd h
FirstBest-valid f m (o ∷ os) (inl (v, e)) = rw (← e) v
FirstBest-valid f m (o ∷ os) (inr (_, h)) = FirstBest-valid f m os h

pub valid_ne_invalid : (a : Addr) → is_valid a ≡ true → a ≢ invalid
valid_ne_invalid invalid h e = cc
valid_ne_invalid (host n) h e = cc

tentative-Identified : (hop : Hop) → Identified (tentative hop)
unfolding tentative
tentative-Identified hop =
    let os = newest_first hop.candidates in
    let (missing, best) = modal_ip_lem os in
    elim (Bool-cases (modal_ip os).1) [
      | inl e ↦
          let b = best (modal_ip os).0 (λ i. ((modal_ip os).0, e i)) in
          rw e (λ p. absurd (valid_ne_invalid _ (FirstBest-valid _ _ os b.0) p))
      | inr e ↦ rw e (λ _. missing.0 e)
    ]

-- Settling changes nothing of a hop but its identity.
tentative_lem : (hop : Hop) → tentative hop ≡ record hop { current_ip = (tentative hop).current_ip }
unfolding tentative
tentative_lem hop = ground arith

pub settle_lem :
    (s : PathState) (hop : Hop) (r : ProbeResult) (t : ℤ)
    → (settle s hop r t).0 ≡ record hop { current_ip = (settle s hop r t).0.current_ip }
unfolding settle
settle_lem s hop r t = ground (arith, tentative_lem hop)

-- Settling leaves a hop with an identity, unless its buffer shows nothing.
pub settle-Identified :
    (s : PathState) (hop : Hop) (r : ProbeResult) (t : ℤ) → Identified (settle s hop r t).0
unfolding settle
settle-Identified s hop r t =
    let os = newest_first hop.candidates in
    elim (Bool-cases (detect_route_change os hop.current_ip t).0) [
      | inl e ↦
          let (n, p) = detected_valid os hop.current_ip t e in
          rw e (λ q. cc (sym (ap (λ x. x.1) p) ∙ q))
      | inr e ↦ rw e (elim (Bool-cases (is_valid hop.current_ip)) [
        | inl v ↦ rw v (λ q. absurd (valid_ne_invalid _ v q))
        | inr v ↦ rw v (tentative-Identified hop)
      ])
    ]

pub settle-HopShape :
    (s : PathState) (hop : Hop) (r : ProbeResult) (t : ℤ) (c sc : ℤ) (ttl : ℕ)
    → HopShape c sc ttl hop
    → HopShape c sc ttl (settle s hop r t).0
settle-HopShape s hop r t c sc ttl h =
    subst (HopShape c sc ttl) (sym (settle_lem s hop r t)) record {
      place = h.place;
      candidates_ok = h.candidates_ok;
      rtts_ok = h.rtts_ok;
      losses_ok = h.losses_ok;
    }

fresh_hop-HopShape :
    (s : PathState) (ttl : ℕ) → HopShape s.candidates_cap s.samples_cap ttl (fresh_hop s ttl)
unfolding fresh_hop new_ring_buffer
fresh_hop-HopShape s ttl = record {
  place = refl;
  candidates_ok = (new_ring_buffer-IsValid s.candidates_cap, length-replicate _ _);
  rtts_ok = (new_ring_buffer-IsValid s.samples_cap, length-replicate _ _);
  losses_ok = (new_ring_buffer-IsValid s.samples_cap, length-replicate _ _);
}

fresh_hop-Identified : (s : PathState) (ttl : ℕ) → Identified (fresh_hop s ttl)
unfolding fresh_hop new_ring_buffer newest_first
fresh_hop-Identified s ttl _ = refl

-- The hop that an observation finds, new or not.
pub found_hop :
    (s : PathState) (ttl : ℕ)
    → PathInv s
    → HopShape s.candidates_cap s.samples_cap ttl (get_or_create_hop s ttl)
      × Identified (get_or_create_hop s ttl)
unfolding get_or_create_hop
found_hop s ttl inv = elim (Option-cases (get_or s.hops ttl none)) [
  | inl e ↦ rw (get_or_create_hop, e) (fresh_hop-HopShape s ttl, fresh_hop-Identified s ttl)
  | inr (h, e) ↦ rw (get_or_create_hop, e) (inv.shapes ttl h e, inv.identities ttl h e)
]

pub next_target_ttl-le :
    (reply : ReplyType) (ttl target : ℕ)
    → ttl ≤ max_ttl
    → target ≤ max_ttl
    → next_target_ttl reply ttl target ≤ max_ttl
unfolding next_target_ttl
next_target_ttl-le reply ttl target h k = ground arith

-- The empty state satisfies the invariant.
slot-replicate : (n ttl : ℕ) → get_or (replicate {A = Option Hop} n none) ttl none ≡ none
slot-replicate zero ttl = refl
slot-replicate (suc n) zero = refl
slot-replicate (suc n) (suc ttl) = slot-replicate n ttl

pub new_path_state-PathInv :
    (target : Addr) (id : String) (c sc : ℤ) (now : ℕ)
    → PathInv (new_path_state_with_caps target id c sc now)
unfolding new_path_state_with_caps
new_path_state-PathInv target id c sc now = record {
  slots = length-replicate {A = Option Hop} (suc max_ttl) none;
  max_seen_in = omega arith;
  target_ttl_in = omega arith;
  shapes = λ ttl hop e. cc (sym (slot-replicate (suc max_ttl) ttl) ∙ e);
  identities = λ ttl hop e. cc (sym (slot-replicate (suc max_ttl) ttl) ∙ e);
}

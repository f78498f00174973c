-- ===== src/Probe/Engine/Trace.antt =====
-- What holds of every run of the reducer (internal/probe/engine.go).
use hoptrail.Common.{
  ℕ, suc, ◌+◌, ◌≤◌, ◌≡◌, ◌≢◌, refl, ap, ◌∙◌, inl, inr, true, false, ◌||◌, Option, none, some, List,
  [], ◌∷◌, ◌++◌, arith, ltb, ◌==◌, if◌then◌else◌, Bool-cases, All,
}
use hoptrail.Common.Int.{ℤ, at_least_one}
use hoptrail.Common.Addr.{invalid, is_valid}
use hoptrail.Common.Float.{Float}
use hoptrail.Probe.Events.{ProbeResult, Sample, RouteChange}
use hoptrail.Probe.Path.{
  PathState, max_ttl, update, apply_probe_result, default_candidates_cap, new_path_state,
  new_path_state_with_caps,
}
use hoptrail.Probe.Path.Inv.{PathInv, new_path_state-PathInv}
use hoptrail.Probe.Path.Apply.{apply_cases, update-PathInv}
use hoptrail.Probe.Path.Changes.{route_change_sound, old_ip_valid, change_needs_room}
use hoptrail.Probe.Path.Snapshot.{snapshot}
use hoptrail.Probe.Engine.{
  EngineConfig, Event, probe, sweep, query, Output, write_sample, write_route_change, reply,
  change_output, written, followed_by, apply_probe, apply_sweep, handle, reduce, reducer,
}

-- The observations that the reducer does not skip: those with a TTL from 1 to the ceiling.
abbrev pub in_range : ProbeResult → ℕ
in_range r = if r.ttl == 0 || ltb max_ttl r.ttl then 0 else 1

abbrev pub count_in_range : List ProbeResult → ℕ
count_in_range [] = 0
count_in_range (r ∷ rs) = in_range r + count_in_range rs

abbrev pub probed : List Event → ℕ
probed [] = 0
probed (probe r ∷ es) = in_range r + probed es
probed (sweep sw ∷ es) = count_in_range sw.results + probed es
probed (query ∷ es) = 0 + probed es

-- What the reducer keeps between two events.
abbrev pub Kept : PathState → Type 0
Kept s = PathInv s × (s.candidates_cap ≡ default_candidates_cap)

-- What is said of each route change, at a threshold.
pub record ChangeOk (t : ℤ) (rc : RouteChange) : Type 0 where
  pub valid : is_valid rc.new_ip ≡ true
  pub differs : rc.new_ip ≢ rc.old_ip
  pub known : 2 ≤ at_least_one t → rc.old_ip ≢ invalid
  pub room : at_least_one t ≤ 10

module _ (fl : Float) (cfg : EngineConfig) where
  abbrev pub samples : List (Output fl) → ℕ
  samples [] = 0
  samples (write_sample s ∷ os) = suc (samples os)
  samples (write_route_change rc ∷ os) = samples os
  samples (reply v ∷ os) = samples os

  abbrev pub OutputOk : Output fl → Type 0
  OutputOk (write_sample s) = Unit
  OutputOk (write_route_change rc) = ChangeOk cfg.route_change_threshold rc
  OutputOk (reply v) = Unit

  -- A step that does not panic, keeps the state in order, and writes `n` samples.
  pub record Fine (n : ℕ) (res : Option (PathState × List (Output fl))) : Type 0 where
    pub state : PathState
    pub outputs : List (Output fl)
    pub returned : res ≡ some (state, outputs)
    pub kept : Kept state
    pub count : samples outputs ≡ n
    pub changes : All OutputOk outputs

  samples-append : (xs ys : List (Output fl)) → samples (xs ++ ys) ≡ samples xs + samples ys
  samples-append [] ys = omega arith
  samples-append (write_sample s ∷ xs) ys = omega (arith, samples-append xs ys)
  samples-append (write_route_change rc ∷ xs) ys = samples-append xs ys
  samples-append (reply v ∷ xs) ys = samples-append xs ys

  All-append :
      (xs ys : List (Output fl)) → All OutputOk xs → All OutputOk ys → All OutputOk (xs ++ ys)
  All-append [] ys p q = q
  All-append (x ∷ xs) ys p q = (p.0, All-append xs ys p.1 q)

  followed_by-Fine :
      (n m : ℕ) (res : Option (PathState × List (Output fl)))
      (k : PathState → Option (PathState × List (Output fl)))
      → Fine n res
      → ((s : PathState) → Kept s → Fine m (k s))
      → Fine (n + m) (followed_by fl cfg res k)
  followed_by-Fine n m res k f g =
      let h = g f.state f.kept in
      record {
        state = h.state;
        outputs = f.outputs ++ h.outputs;
        returned = rw (f.returned, h.returned);
        kept = h.kept;
        count = omega (arith, samples-append f.outputs h.outputs, f.count, h.count);
        changes = All-append f.outputs h.outputs f.changes h.changes;
      }

  idle : (s : PathState) → Kept s → Fine 0 (some (s, []))
  idle s k = record {
    state = s;
    outputs = [];
    returned = refl;
    kept = k;
    count = refl;
    changes = tt;
  }

  sent :
      (rc : Option RouteChange) (sample : Sample)
      → ((x : RouteChange) → rc ≡ some x → ChangeOk cfg.route_change_threshold x)
      → (samples (write_sample sample ∷ change_output fl cfg rc) ≡ 1)
        × All OutputOk (write_sample sample ∷ change_output fl cfg rc)
  sent none sample h = (refl, (tt, tt))
  sent (some x) sample h = (refl, (tt, (h x refl, tt)))

  -- A change that an observation emits, at the state that it was applied to.
  emitted-ChangeOk :
      (s : PathState) (r : ProbeResult)
      → Kept s
      → (rc : RouteChange) → (update s r cfg.route_change_threshold).2 ≡ some rc
      → apply_probe_result s r cfg.route_change_threshold
        ≡ some (update s r cfg.route_change_threshold)
      → ChangeOk cfg.route_change_threshold rc
  emitted-ChangeOk s r (inv, c) rc e applied =
      let t = cfg.route_change_threshold in
      let u = update s r t in
      let a : apply_probe_result s r t ≡ some (u.0, u.1, some rc) =
        applied ∙ (λ i. some (u.0, u.1, e i)) in
      let (_, _, _, _, ne, v, _) = route_change_sound s r t a inv in
      record {
        valid = v;
        differs = ne;
        known = old_ip_valid s r t a inv;
        room = omega (arith, change_needs_room s r t a inv, ap at_least_one c);
      }

  candidates_cap-update :
      (s : PathState) (r : ProbeResult) (t : ℤ) → (update s r t).0.candidates_cap ≡ s.candidates_cap
  unfolding update
  candidates_cap-update s r t = refl

  in_range-Fine :
      (s : PathState) (r : ProbeResult)
      → Kept s
      → (r.ttl == 0 || ltb max_ttl r.ttl) ≡ false
      → Fine 1 (written fl cfg (apply_probe_result s r cfg.route_change_threshold))
  in_range-Fine s r k e =
      let t = cfg.route_change_threshold in
      let u = update s r t in
      elim (apply_cases s r t) [
        | inl (p, q) ↦ absurd (ground arith)
        | inr (p, lo, hi) ↦
            let (n, all) = sent u.2 u.1 (λ rc q. emitted-ChangeOk s r k rc q p) in
            record {
              state = u.0;
              outputs = write_sample u.1 ∷ change_output fl cfg u.2;
              returned = ap (written fl cfg) p;
              kept = (update-PathInv s r t k.0 hi, candidates_cap-update s r t ∙ k.1);
              count = n;
              changes = all;
            }
      ]

  apply_probe-Fine :
      (s : PathState) (r : ProbeResult) → Kept s → Fine (in_range r) (apply_probe fl cfg s r)
  unfolding apply_probe
  apply_probe-Fine s r k = elim (Bool-cases (r.ttl == 0 || ltb max_ttl r.ttl)) [
    | inl e ↦ rw e (idle s k)
    | inr e ↦ rw e (in_range-Fine s r k e)
  ]

  -- A slot with no probe is skipped by the loop, and would be by the reducer.
  slot-Fine :
      (s : PathState) (r : ProbeResult)
      → Kept s
      → Fine (in_range r) (if r.ttl == 0 then some (s, []) else apply_probe fl cfg s r)
  slot-Fine s r k = elim (Bool-cases (r.ttl == 0)) [
    | inl e ↦ rw e (idle s k)
    | inr e ↦ rw e (rw e at (apply_probe-Fine s r k))
  ]

  apply_sweep-Fine :
      (s : PathState) (rs : List ProbeResult)
      → Kept s
      → Fine (count_in_range rs) (apply_sweep fl cfg s rs)
  unfolding apply_sweep
  apply_sweep-Fine s [] k = idle s k
  apply_sweep-Fine s (r ∷ rs) k =
      followed_by-Fine (in_range r) (count_in_range rs) _ _ (slot-Fine s r k)
        (λ s' k'. apply_sweep-Fine s' rs k')

  handle-Fine :
      (s : PathState) (e : Event) (es : List Event)
      → Kept s
      → ((s' : PathState) → Kept s' → Fine (probed es) (reduce fl cfg s' es))
      → Fine (probed (e ∷ es)) (reduce fl cfg s (e ∷ es))
  unfolding reduce handle
  handle-Fine s (probe r) es k rest =
      followed_by-Fine (in_range r) (probed es) _ _ (apply_probe-Fine s r k) rest
  handle-Fine s (sweep sw) es k rest =
      followed_by-Fine (count_in_range sw.results) (probed es) _ _ (apply_sweep-Fine s sw.results k)
        rest
  handle-Fine s query es k rest =
      followed_by-Fine 0 (probed es) _ _
        record {
          state = s;
          outputs = reply (snapshot fl s) ∷ [];
          returned = refl;
          kept = k;
          count = refl;
          changes = (tt, tt);
        }
        rest

  reduce-Fine : (s : PathState) (es : List Event) → Kept s → Fine (probed es) (reduce fl cfg s es)
  unfolding reduce
  reduce-Fine s [] k = idle s k
  reduce-Fine s (e ∷ es) k = handle-Fine s e es k (λ s' k'. reduce-Fine s' es k')

  pub run : (now : ℕ) (events : List Event) → Fine (probed events) (reducer fl cfg now events)
  unfolding reducer new_path_state new_path_state_with_caps
  run now events =
      reduce-Fine (new_path_state cfg.target cfg.target_id now) events
        (new_path_state-PathInv cfg.target cfg.target_id _ _ now, refl)

  -- The reducer never panics: from its start, every sequence of events is processed to its end. The
  -- path's state satisfies its invariant then, and exactly one sample has been written for each
  -- observation whose TTL is from 1 to the ceiling, in probes and in sweeps.
  pub reducer_total :
      (now : ℕ) (events : List Event)
      → (s : PathState) × (outs : List (Output fl)) × (reducer fl cfg now events ≡ some (s, outs))
        × PathInv s
        × (samples outs ≡ probed events)
  reducer_total now events =
      let f = run now events in (f.state, f.outputs, f.returned, f.kept.0, f.count)

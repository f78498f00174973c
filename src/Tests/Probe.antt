-- ===== src/Tests/Probe.antt =====
-- Runs and instances for internal/probe.
use hoptrail.Common.{
  ℕ, ◌+◌, ◌≤◌, ◌<◌, ◌≡◌, ◌≢◌, refl, ◌⊎◌, true, false, none, some, List, [], ◌∷◌, arith, get_or,
  get_elem?, take, replicate, All,
}
use hoptrail.Common.Int.{ℤ, pos, at_least_one}
use hoptrail.Common.Addr.{invalid, host, is_valid, addr_zero}
use hoptrail.Analysis.RingBuffer.{push, newest_first, new_ring_buffer}
use hoptrail.Analysis.Routing.{detect_route_change, modal_ip, tally, pick, bump, get_count}
use hoptrail.Analysis.Routing.Detection.{sightings}
use hoptrail.Probe.Events.{ProbeResult, RouteChange, time_exceeded}
use hoptrail.Probe.Path.{
  Hop, PathState, new_path_state_with_caps, fresh_hop, get_or_create_hop, observe, next_target_ttl,
  tentative, settle, sample_of, update, apply_probe_result,
}
use hoptrail.Probe.Path.Inv.{PathInv, new_path_state-PathInv}
use hoptrail.Probe.Path.Apply.{apply_probe_result-PathInv, apply_probe_result_local, update-PathInv}
use hoptrail.Probe.Path.Changes.{
  displayed, history, route_change_sound, old_ip_valid, change_needs_room,
}
use hoptrail.Probe.Path.Snapshot.{HopSnapshot, hop_snapshot, snapshot, max_visible, rtt_summary}
use hoptrail.Probe.Path.Snapshot.Stats.{responses, rtt_summary_lem}
use hoptrail.Probe.Path.Snapshot.Rows.{Ascending, RowOf, snapshot_lem}
use hoptrail.Probe.Engine.{EngineConfig, Event, probe, sweep, query, Output, reducer}
use hoptrail.Probe.Engine.Trace.{samples, probed, reducer_total}
use hoptrail.Probe.Engine.Changes.{changes, changes_known, no_changes}
use hoptrail.Tests.Whole.{whole}

abbrev start : PathState
start = new_path_state_with_caps (host 9) "nine" (pos 3) (pos 4) 0

start-PathInv : PathInv start
start-PathInv = new_path_state-PathInv (host 9) "nine" (pos 3) (pos 4) 0

-- An answer of a router at TTL 2.
abbrev answer : ℕ → ℕ → ProbeResult
answer a ts = record {
  target = host 9;
  ttl = 2;
  ts = ts;
  resp_ip = host a;
  rtt = 5;
  reply = time_exceeded;
  timed_out = false;
}

abbrev after : PathState → ProbeResult → PathState
after s r = (update s r (pos 2)).0

-- Two answers of router 1, then one of router 2: the next of router 2 makes the change.
abbrev before_change : PathState
before_change = after (after (after start (answer 1 10)) (answer 1 20)) (answer 2 30)

abbrev change : RouteChange
change = record {
  target = host 9;
  target_id = "nine";
  ttl = 2;
  ts = 40;
  old_ip = host 1;
  new_ip = host 2;
}

applied :
    apply_probe_result before_change (answer 2 40) (pos 2)
    ≡ some (after before_change (answer 2 40), sample_of before_change (answer 2 40), some change)
unfolding apply_probe_result update settle tentative observe get_or_create_hop fresh_hop
    new_path_state_with_caps sample_of next_target_ttl detect_route_change modal_ip tally pick bump
    get_count push newest_first new_ring_buffer
applied = refl

before_change-PathInv : PathInv before_change
before_change-PathInv =
    update-PathInv _ (answer 2 30) (pos 2)
      (update-PathInv _ (answer 1 20) (pos 2)
        (update-PathInv start (answer 1 10) (pos 2) start-PathInv (omega arith)) (omega arith))
      (omega arith)

apply_probe_result-PathInv_example : PathInv (after before_change (answer 2 40))
apply_probe_result-PathInv_example =
    apply_probe_result-PathInv before_change (answer 2 40) (pos 2) applied before_change-PathInv

apply_probe_result_local_example :
    let s' = after before_change (answer 2 40) in
    ((ttl : ℕ) → ttl ≢ 2 → get_or s'.hops ttl none ≡ get_or before_change.hops ttl none)
    × (hop : Hop) × (get_or s'.hops 2 none ≡ some hop)
    × (get_or (newest_first hop.candidates) 0 invalid ≡ host 2)
apply_probe_result_local_example =
    apply_probe_result_local before_change (answer 2 40) (pos 2) applied before_change-PathInv

route_change_sound_example :
    let s' = after before_change (answer 2 40) in
    ◌≡◌ {A = ℕ} 2 2
    × ◌≡◌ {A = ℕ} 40 40
    × (host 1 ≡ displayed before_change 2)
    × (host 2 ≡ displayed s' 2)
    × (host 2 ≢ host 1)
    × (is_valid (host 2) ≡ true)
    × (take 2 (sightings (history s' 2)) ≡ replicate 2 (host 2))
route_change_sound_example =
    route_change_sound before_change (answer 2 40) (pos 2) applied before_change-PathInv

old_ip_valid_example : host 1 ≢ invalid
old_ip_valid_example =
    old_ip_valid before_change (answer 2 40) (pos 2) applied before_change-PathInv (omega arith)

change_needs_room_example : at_least_one (pos 2) ≤ at_least_one before_change.candidates_cap
change_needs_room_example =
    change_needs_room before_change (answer 2 40) (pos 2) applied before_change-PathInv

-- Two responses and a timeout.
rtt_summary_lem_example :
    let xs = responses [] (4 ∷ 0 ∷ 7 ∷ []) in
    let (avg, current, least) = rtt_summary (4 ∷ 0 ∷ 7 ∷ []) in
    ((xs ≡ []) × (avg ≡ 0) × (current ≡ 0) × (least ≡ 0))
    ⊎ ((current ≡ get_or xs 0 0)
        × (0 < least)
        × All (λ x. least ≤ x) xs
        × (least ≤ avg)
        × ((b : ℕ) → All (λ x. x ≤ b) xs → avg ≤ b))
rtt_summary_lem_example = rtt_summary_lem (4 ∷ 0 ∷ 7 ∷ [])

rtt_summary_run : rtt_summary (4 ∷ 0 ∷ 7 ∷ []) ≡ (5, 7, 4)
unfolding rtt_summary
rtt_summary_run = refl

snapshot_lem_example :
    Ascending whole before_change before_change-PathInv 1
      (max_visible before_change + 1)
      (snapshot whole before_change).hops
    × (max_visible before_change ≤ before_change.max_seen)
    × (before_change.target_ttl ≢ 0 → max_visible before_change ≤ before_change.target_ttl)
    × ((i : ℕ) (row : HopSnapshot whole)
        → get_elem? (snapshot whole before_change).hops i ≡ some row
        → RowOf whole before_change before_change-PathInv row)
    × ((ttl : ℕ) (h : Hop)
        → 1 ≤ ttl
        → ttl ≤ max_visible before_change
        → get_or before_change.hops ttl none ≡ some h
        → (i : ℕ) × (get_elem? (snapshot whole before_change).hops i ≡ some (hop_snapshot whole h)))
snapshot_lem_example = snapshot_lem whole before_change before_change-PathInv

abbrev engine : ℤ → EngineConfig
engine threshold = record {
  target = host 9;
  target_id = "nine";
  route_change_threshold = threshold;
}

-- A sweep with an empty slot, single probes, a probe out of range, and a query.
abbrev events : List Event
events =
    sweep record {
      target = host 9;
      ts = 1;
      results = answer 1 1 ∷ record (answer 1 1) { ttl = 0 } ∷ [];
      terminal_ttl = 0;
    }
    ∷ probe (answer 1 2)
    ∷ probe record (answer 1 3) { ttl = 65 }
    ∷ query
    ∷ probe (answer 2 4)
    ∷ probe (answer 2 5)
    ∷ []

reducer_total_example :
    (s : PathState) × (outs : List (Output whole)) × (reducer whole (engine (pos 2)) 0 events
      ≡ some (s, outs))
    × PathInv s
    × (samples whole (engine (pos 2)) outs ≡ probed events)
reducer_total_example = reducer_total whole (engine (pos 2)) 0 events

abbrev ended : ℤ → PathState
ended t = (reducer_total whole (engine t) 0 events).0

abbrev sent : ℤ → List (Output whole)
sent t = (reducer_total whole (engine t) 0 events).1

changes_known_example :
    All
      (λ rc. (is_valid rc.new_ip ≡ true) × (rc.new_ip ≢ rc.old_ip) × (rc.old_ip ≢ invalid))
      (changes whole (engine (pos 2)) (sent (pos 2)))
changes_known_example =
    changes_known whole (engine (pos 2)) 0 events {s = ended (pos 2)} {outs = sent (pos 2)}
      (reducer_total whole (engine (pos 2)) 0 events).2 (omega arith)

no_changes_example : changes whole (engine (pos 11)) (sent (pos 11)) ≡ []
no_changes_example =
    no_changes whole (engine (pos 11)) 0 events {s = ended (pos 11)} {outs = sent (pos 11)}
      (reducer_total whole (engine (pos 11)) 0 events).2 (omega arith)

-- ===== src/Probe/Path.antt =====
-- internal/probe/path.go: the in-memory state of one path, updated by one observation at a time.
-- `PathState.hops` is the source's array of `max_ttl + 1` pointers; `none` is a nil pointer, and an
-- update of a hop through its pointer is a write of the slot.
pub mod Inv
pub mod Apply
pub mod Changes
pub mod Snapshot
use Prim.Native.String.{String}
use hoptrail.Common.{
  ℕ, suc, ◌+◌, Bool, true, false, not, ◌&&◌, ◌||◌, Option, none, some, List, get_or, set, replicate,
  ltb, ◌==◌, if◌then◌else◌, nat_zero, bool_zero,
}
use hoptrail.Common.Int.{ℤ, pos}
use hoptrail.Common.Addr.{Addr, invalid, is_valid, addr_zero}
use hoptrail.Analysis.RingBuffer.{RingBuffer, push, new_ring_buffer, newest_first}
use hoptrail.Analysis.Routing.{detect_route_change, modal_ip}
use hoptrail.Probe.Events.{
  ReplyType, reply_none, echo_reply, time_exceeded, dest_unreachable, ProbeResult, Sample,
  RouteChange,
}

abbrev pub max_ttl : ℕ
max_ttl = 64

abbrev pub default_candidates_cap : ℤ
default_candidates_cap = pos 10

abbrev pub default_samples_cap : ℤ
default_samples_cap = pos 300

pub record Hop : Type 0 where
  pub ttl : ℕ
  pub current_ip : Addr
  pub candidates : RingBuffer Addr
  pub recent_rtts : RingBuffer ℕ
  pub recent_losses : RingBuffer Bool
  pub last_response : ℕ

pub record PathState : Type 0 where
  pub target : Addr
  pub target_id : String
  pub started : ℕ
  pub hops : List (Option Hop)
  pub max_seen : ℕ  -- uint8
  pub target_ttl : ℕ  -- uint8; 0 is unknown
  pub candidates_cap : ℤ
  pub samples_cap : ℤ

unfoldable pub new_path_state_with_caps : Addr → String → ℤ → ℤ → ℕ → PathState
new_path_state_with_caps target target_id candidates_cap samples_cap now = record {
  target = target;
  target_id = target_id;
  started = now;
  hops = replicate (suc max_ttl) none;
  max_seen = 0;
  target_ttl = 0;
  candidates_cap = candidates_cap;
  samples_cap = samples_cap;
}

unfoldable pub new_path_state : Addr → String → ℕ → PathState
unfolding new_path_state_with_caps
new_path_state target target_id =
    new_path_state_with_caps target target_id default_candidates_cap default_samples_cap

unfoldable pub fresh_hop : PathState → ℕ → Hop
fresh_hop s ttl = record {
  ttl = ttl;
  current_ip = invalid;
  candidates = new_ring_buffer s.candidates_cap;
  recent_rtts = new_ring_buffer s.samples_cap;
  recent_losses = new_ring_buffer s.samples_cap;
  last_response = 0;
}

unfoldable pub get_or_create_hop : PathState → ℕ → Hop
get_or_create_hop s ttl = elim (get_or s.hops ttl none) [ none ↦ fresh_hop s ttl | some h ↦ h ]

abbrev pub is_dest_unreachable : ReplyType → Bool
is_dest_unreachable dest_unreachable = true
is_dest_unreachable _ = false

abbrev pub is_miss : ProbeResult → Bool
is_miss r = r.timed_out || is_dest_unreachable r.reply

-- The three pushes, and the time of the last response.
unfoldable pub observe : Hop → ProbeResult → Hop
observe hop r =
    if is_miss r
    then record hop {
      candidates = push hop.candidates invalid;
      recent_rtts = push hop.recent_rtts 0;
      recent_losses = push hop.recent_losses true;
    }
    else record hop {
      candidates = push hop.candidates r.resp_ip;
      recent_rtts = push hop.recent_rtts r.rtt;
      recent_losses = push hop.recent_losses false;
      last_response = r.ts;
    }

-- The switch that maintains `targetTTL`.
unfoldable pub next_target_ttl : ReplyType → ℕ → ℕ → ℕ
next_target_ttl echo_reply ttl target = if target == 0 || ltb ttl target then ttl else target
next_target_ttl time_exceeded ttl target =
    if not (target == 0) && (ttl == target) then 0 else target
next_target_ttl reply_none ttl target = target
next_target_ttl dest_unreachable ttl target = target

-- A hop without an identity shows the modal address of its observations, if there is one.
unfoldable pub tentative : Hop → Hop
tentative hop =
    let (modal, found) = modal_ip (newest_first hop.candidates) in
    if found then record hop { current_ip = modal } else hop

-- Route-change detection on the updated buffer, and the hop's new identity.
unfoldable pub settle : PathState → Hop → ProbeResult → ℤ → Hop × Option RouteChange
settle s hop r threshold =
    let (changed, new_ip) =
      detect_route_change (newest_first hop.candidates) hop.current_ip threshold in
    if changed
    then (
      record hop { current_ip = new_ip },
      some record {
        target = s.target;
        target_id = s.target_id;
        ttl = r.ttl;
        ts = r.ts;
        old_ip = hop.current_ip;
        new_ip = new_ip;
      },
    )
    else (if is_valid hop.current_ip then hop else tentative hop, none)

unfoldable pub sample_of : PathState → ProbeResult → Sample
sample_of s r = record {
  target = s.target;
  target_id = s.target_id;
  ttl = r.ttl;
  ts = r.ts;
  ip = if is_miss r then invalid else r.resp_ip;
  rtt = if is_miss r then 0 else r.rtt;
}

-- The body of `ApplyProbeResult`, for a TTL in range.
unfoldable pub update : PathState → ProbeResult → ℤ → PathState × Sample × Option RouteChange
update s r threshold =
    let (hop, rc) = settle s (observe (get_or_create_hop s r.ttl) r) r threshold in
    (
      record s {
        hops = set s.hops r.ttl (some hop);
        max_seen = if not (is_miss r) && ltb s.max_seen r.ttl then r.ttl else s.max_seen;
        target_ttl = next_target_ttl r.reply r.ttl s.target_ttl;
      },
      sample_of s r,
      rc,
    )

-- `none` is the panic on a TTL out of range.
unfoldable pub apply_probe_result :
    PathState → ProbeResult → ℤ → Option (PathState × Sample × Option RouteChange)
apply_probe_result s r threshold =
    if r.ttl == 0 || ltb max_ttl r.ttl then none else some (update s r threshold)

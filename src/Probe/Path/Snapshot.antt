-- ===== src/Probe/Path/Snapshot.antt =====
-- The externally visible view of a path's state: `Snapshot` and `snapshot` of internal/probe/path.go.
pub mod Stats
pub mod Rows
use hoptrail.Common.{
  ℕ, zero, suc, ◌+◌, ◌/◌, Bool, not, ◌&&◌, ◌||◌, Option, none, some, List, [], ◌∷◌, length, get_or,
  ltb, ◌==◌, if◌then◌else◌, nat_zero, bool_zero,
}
use hoptrail.Common.Addr.{Addr}
use hoptrail.Common.Float.{Float}
use hoptrail.Analysis.RingBuffer.{oldest_first}
use hoptrail.Probe.Path.{Hop, PathState}

pub record HopSnapshot (fl : Float) : Type 0 where
  pub ttl : ℕ
  pub current_ip : Addr
  pub last_response : ℕ
  pub avg_rtt : ℕ
  pub current_rtt : ℕ
  pub min_rtt : ℕ
  pub loss_percent : fl.F

pub record Snapshot (fl : Float) : Type 0 where
  pub hops : List (HopSnapshot fl)
  pub target_ttl : ℕ

-- The variables of the loop over the round-trip times; `count` is the number of responses.
pub record RttStats : Type 0 where
  pub sum : ℕ
  pub count : ℕ
  pub last : ℕ
  pub min : ℕ

abbrev pub no_stats : RttStats
no_stats = record { sum = 0; count = 0; last = 0; min = 0 }

unfoldable pub add_rtt : RttStats → ℕ → RttStats
add_rtt a r =
    if ltb 0 r
    then record {
      sum = a.sum + r;
      count = a.count + 1;
      last = r;
      min = if a.min == 0 || ltb r a.min then r else a.min;
    }
    else a

unfoldable pub rtt_stats : RttStats → List ℕ → RttStats
rtt_stats a [] = a
rtt_stats a (r ∷ rs) = rtt_stats (add_rtt a r) rs

unfoldable pub count_lost : List Bool → ℕ
count_lost [] = 0
count_lost (l ∷ ls) = let rest = count_lost ls in if l then suc rest else rest

-- The three averages shown: all 0 if nothing responded.
unfoldable pub rtt_summary : List ℕ → ℕ × ℕ × ℕ
unfolding rtt_stats add_rtt
rtt_summary rtts =
    let a = rtt_stats no_stats rtts in
    if ltb 0 a.count then (a.sum / a.count, a.last, a.min) else (0, 0, 0)

abbrev pub max_visible : PathState → ℕ
max_visible s =
    if not (s.target_ttl == 0) && ltb s.target_ttl s.max_seen then s.target_ttl else s.max_seen

module _ (fl : Float) where
  unfoldable pub loss_percent_of : List Bool → fl.F
  unfolding count_lost
  loss_percent_of losses =
      if ltb 0 (length losses)
      then fl.div (fl.mul (fl.of_nat 100) (fl.of_nat (count_lost losses)))
          (fl.of_nat (length losses))
      else fl.of_nat 0

  unfoldable pub hop_snapshot : Hop → HopSnapshot fl
  hop_snapshot h =
      let (avg, current, least) = rtt_summary (oldest_first h.recent_rtts) in
      record {
        ttl = h.ttl;
        current_ip = h.current_ip;
        last_response = h.last_response;
        avg_rtt = avg;
        current_rtt = current;
        min_rtt = least;
        loss_percent = loss_percent_of (oldest_first h.recent_losses);
      }

  -- A TTL that was never observed leaves a gap.
  abbrev pub append_row : Option Hop → List (HopSnapshot fl) → List (HopSnapshot fl)
  append_row none rest = rest
  append_row (some h) rest = hop_snapshot h ∷ rest

  -- The loop over the TTLs, with the rounds left.
  unfoldable pub rows_from : PathState → ℕ → ℕ → List (HopSnapshot fl)
  rows_from s ttl zero = []
  rows_from s ttl (suc n) = append_row (get_or s.hops ttl none) (rows_from s (ttl + 1) n)

  unfoldable pub snapshot : PathState → Snapshot fl
  snapshot s = record {
    hops = if s.max_seen == 0 then [] else rows_from s 1 (max_visible s);
    target_ttl = s.target_ttl;
  }

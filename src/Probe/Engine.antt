-- ===== src/Probe/Engine.antt =====
-- internal/probe/engine.go: the reducer, which owns the state of one path. The select loop is a run
-- over the events in the order in which it takes them from its channels; what it sends is a list of
-- outputs. A sink's error is only logged, so a write is an output whether or not it succeeds.
pub mod Trace
pub mod Changes
use Prim.Native.String.{String}
use hoptrail.Common.{
  ℕ, Bool, ◌||◌, Option, none, some, List, [], ◌∷◌, ◌++◌, ltb, ◌==◌, if◌then◌else◌,
}
use hoptrail.Common.Int.{ℤ}
use hoptrail.Common.Addr.{Addr}
use hoptrail.Common.Float.{Float}
use hoptrail.Probe.Events.{ProbeResult, SweepResult, Sample, RouteChange}
use hoptrail.Probe.Path.{PathState, max_ttl, apply_probe_result, new_path_state}
use hoptrail.Probe.Path.Snapshot.{Snapshot, snapshot}

pub record EngineConfig : Type 0 where
  pub target : Addr
  pub target_id : String
  pub route_change_threshold : ℤ

pub data Event : Type 0 where
  probe : ProbeResult → Event
  sweep : SweepResult → Event
  query : Event

pub data Output (fl : Float) : Type 0 where
  write_sample : Sample → Output fl
  write_route_change : RouteChange → Output fl
  reply : Snapshot fl → Output fl

module _ (fl : Float) (cfg : EngineConfig) where
  abbrev pub change_output : Option RouteChange → List (Output fl)
  change_output none = []
  change_output (some rc) = write_route_change rc ∷ []

  abbrev pub written :
      Option (PathState × Sample × Option RouteChange) → Option (PathState × List (Output fl))
  written none = none
  written (some (s, sample, rc)) = some (s, write_sample sample ∷ change_output rc)

  -- `applyProbe`; `none` is a panic.
  unfoldable pub apply_probe : PathState → ProbeResult → Option (PathState × List (Output fl))
  apply_probe s r =
      if r.ttl == 0 || ltb max_ttl r.ttl
      then some (s, [])
      else written (apply_probe_result s r cfg.route_change_threshold)

  abbrev pub after_outputs :
      List (Output fl)
      → Option (PathState × List (Output fl))
      → Option (PathState × List (Output fl))
  after_outputs outs none = none
  after_outputs outs (some (s, more)) = some (s, outs ++ more)

  -- One step, then the rest; a panic ends both.
  abbrev pub followed_by :
      Option (PathState × List (Output fl))
      → (PathState → Option (PathState × List (Output fl)))
      → Option (PathState × List (Output fl))
  followed_by none k = none
  followed_by (some (s, outs)) k = after_outputs outs (k s)

  -- The loop over a sweep's slots, which skips those where no probe was sent.
  unfoldable pub apply_sweep : PathState → List ProbeResult → Option (PathState × List (Output fl))
  apply_sweep s [] = some (s, [])
  apply_sweep s (r ∷ rs) =
      followed_by (if r.ttl == 0 then some (s, []) else apply_probe s r) (λ s'. apply_sweep s' rs)

  unfoldable pub handle : PathState → Event → Option (PathState × List (Output fl))
  handle s (probe r) = apply_probe s r
  handle s (sweep sw) = apply_sweep s sw.results
  handle s query = some (s, reply (snapshot fl s) ∷ [])

  unfoldable pub reduce : PathState → List Event → Option (PathState × List (Output fl))
  reduce s [] = some (s, [])
  reduce s (e ∷ es) = followed_by (handle s e) (λ s'. reduce s' es)

  -- The reducer from its start, at time `now`.
  unfoldable pub reducer : ℕ → List Event → Option (PathState × List (Output fl))
  unfolding new_path_state
  reducer now events = reduce (new_path_state cfg.target cfg.target_id now) events

-- ===== src/Probe/Engine/Changes.antt =====
-- The route changes that a run of the reducer writes (internal/probe/engine.go).
use mathlib.Core.Path.{subst}
use hoptrail.Common.{
  ℕ, ◌≤◌, ◌<◌, ◌≡◌, ◌≢◌, refl, sym, ◌∙◌, true, some, List, [], ◌∷◌, arith, All, some-inj,
}
use hoptrail.Common.Int.{at_least_one}
use hoptrail.Common.Addr.{invalid, is_valid}
use hoptrail.Common.Float.{Float}
use hoptrail.Probe.Events.{RouteChange}
use hoptrail.Probe.Path.{PathState}
use hoptrail.Probe.Engine.{
  EngineConfig, Event, Output, write_sample, write_route_change, reply, reducer,
}
use hoptrail.Probe.Engine.Trace.{ChangeOk, OutputOk, run}

module _ (fl : Float) (cfg : EngineConfig) where
  abbrev pub changes : List (Output fl) → List RouteChange
  changes [] = []
  changes (write_sample s ∷ os) = changes os
  changes (write_route_change rc ∷ os) = rc ∷ changes os
  changes (reply v ∷ os) = changes os

  changes-Ok :
      (outs : List (Output fl))
      → All (OutputOk fl cfg) outs
      → All (ChangeOk cfg.route_change_threshold) (changes outs)
  changes-Ok [] h = tt
  changes-Ok (write_sample s ∷ os) h = changes-Ok os h.1
  changes-Ok (write_route_change rc ∷ os) h = (h.0, changes-Ok os h.1)
  changes-Ok (reply v ∷ os) h = changes-Ok os h.1

  ran-Ok :
      (now : ℕ) (events : List Event) {s : PathState} {outs : List (Output fl)}
      → reducer fl cfg now events ≡ some (s, outs)
      → All (ChangeOk cfg.route_change_threshold) (changes outs)
  ran-Ok now events e =
      let f = run fl cfg now events in
      subst (λ x. All (ChangeOk cfg.route_change_threshold) (changes x.1))
        (some-inj (sym f.returned ∙ e)) (changes-Ok f.outputs f.changes)

  -- In every run, each route change that is written goes to a valid address other than the old one,
  -- and, with a threshold of at least 2, never from an anonymous hop.
  pub changes_known :
      (now : ℕ) (events : List Event) {s : PathState} {outs : List (Output fl)}
      → reducer fl cfg now events ≡ some (s, outs)
      → 2 ≤ at_least_one cfg.route_change_threshold
      → All
          (λ rc. (is_valid rc.new_ip ≡ true) × (rc.new_ip ≢ rc.old_ip) × (rc.old_ip ≢ invalid))
          (changes outs)
  changes_known now events {outs} e two = known (changes outs) (ran-Ok now events e)
    where
      known :
          (rcs : List RouteChange)
          → All (ChangeOk cfg.route_change_threshold) rcs
          → All
              (λ rc. (is_valid rc.new_ip ≡ true) × (rc.new_ip ≢ rc.old_ip) × (rc.old_ip ≢ invalid))
              rcs
      known [] h = tt
      known (rc ∷ rcs) h = ((h.0.valid, h.0.differs, h.0.known two), known rcs h.1)

  -- With a threshold above 10, the capacity of the buffer of candidates, no run ever writes a route
  -- change, whatever the path does.
  pub no_changes :
      (now : ℕ) (events : List Event) {s : PathState} {outs : List (Output fl)}
      → reducer fl cfg now events ≡ some (s, outs)
      → 10 < at_least_one cfg.route_change_threshold
      → changes outs ≡ []
  no_changes now events {outs} e over = none_left (changes outs) (ran-Ok now events e)
    where
      none_left :
          (rcs : List RouteChange) → All (ChangeOk cfg.route_change_threshold) rcs → rcs ≡ []
      none_left [] h = refl
      none_left (rc ∷ rcs) h = absurd (omega (arith, h.0.room))

-- ===== src/Analysis/Loss.antt =====
-- internal/analysis/loss.go: the downstream-persistence rule. Percentages are `float64`, which is
-- the parameter `fl`.
pub mod Persistence
use hoptrail.Common.{ℕ, Bool, true, false, List, [], ◌∷◌, if◌then◌else◌}
use hoptrail.Common.Float.{Float}

pub record HopLossSnapshot (fl : Float) : Type 0 where
  pub ttl : ℕ
  pub loss : fl.F

pub record AttributedHopLoss (fl : Float) : Type 0 where
  pub ttl : ℕ
  pub loss : fl.F
  pub suspect : Bool

module _ (fl : Float) where
  -- The inner loop, over the hops downstream: it stops at the first whose loss falls below.
  unfoldable pub persists : fl.F → fl.F → List (HopLossSnapshot fl) → Bool
  persists tolerance loss [] = true
  persists tolerance loss (g ∷ gs) =
      let rest = persists tolerance loss gs in
      if fl.lt g.loss (fl.sub loss tolerance) then false else rest

  -- The body of the outer loop at one hop, with the hops downstream of it.
  abbrev pub attribute :
      fl.F → HopLossSnapshot fl → List (HopLossSnapshot fl) → AttributedHopLoss fl
  attribute tolerance hop downstream = record {
    ttl = hop.ttl;
    loss = hop.loss;
    suspect =
        if fl.lt (fl.of_nat 0) hop.loss then persists tolerance hop.loss downstream else false;
  }

  unfoldable pub attributed_loss : List (HopLossSnapshot fl) → fl.F → List (AttributedHopLoss fl)
  attributed_loss [] tolerance = []
  attributed_loss (hop ∷ hops) tolerance =
      attribute tolerance hop hops ∷ attributed_loss hops tolerance

-- ===== src/Analysis/Loss/Persistence.antt =====
-- Which hops the rule of internal/analysis/loss.go holds suspect.
use mathlib.Core.Path.{subst}
use hoptrail.Common.{
  inl, inr, Bool-cases, ap, sym, ◌∙◌, some-inj, ℕ, zero, suc, ◌<◌, ◌≡◌, ◌↔◌, refl, true, false,
  some, List, [], ◌∷◌, arith, length, get_elem?, if◌then◌else◌,
}
use hoptrail.Common.Float.{Float, IsOrdered}
use hoptrail.Analysis.Loss.{
  HopLossSnapshot, AttributedHopLoss, persists, attribute, attributed_loss,
}

module _ (fl : Float) where
  -- Every hop after position `i` shows at least `loss` less the tolerance.
  abbrev pub Downstream : fl.F → fl.F → List (HopLossSnapshot fl) → ℕ → Type 0
  Downstream tolerance loss hops i =
      (j : ℕ) (g : HopLossSnapshot fl)
      → i < j
      → get_elem? hops j ≡ some g
      → fl.lt g.loss (fl.sub loss tolerance) ≡ false

  persists_sound :
      (tolerance loss : fl.F) (hops : List (HopLossSnapshot fl)) (j : ℕ) (g : HopLossSnapshot fl)
      → persists fl tolerance loss hops ≡ true
      → get_elem? hops j ≡ some g
      → fl.lt g.loss (fl.sub loss tolerance) ≡ false
  unfolding persists
  persists_sound tolerance loss [] j g h e = cc
  persists_sound tolerance loss (x ∷ xs) zero g h e = ground arith
  persists_sound tolerance loss (x ∷ xs) (suc j) g h e =
      ground (arith, persists_sound tolerance loss xs j g)

  persists_complete :
      (tolerance loss : fl.F) (hops : List (HopLossSnapshot fl))
      → ((j : ℕ) (g : HopLossSnapshot fl)
          → get_elem? hops j ≡ some g
          → fl.lt g.loss (fl.sub loss tolerance) ≡ false)
      → persists fl tolerance loss hops ≡ true
  unfolding persists
  persists_complete tolerance loss [] h = refl
  persists_complete tolerance loss (x ∷ xs) h =
      rw (h 0 x refl) (persists_complete tolerance loss xs (λ j. h (suc j)))

  -- The verdict of the source at one position.
  abbrev Verdict :
      fl.F → HopLossSnapshot fl → List (HopLossSnapshot fl) → ℕ → AttributedHopLoss fl → Type 0
  Verdict tolerance hop window i a =
      (a.ttl ≡ hop.ttl)
      × (a.loss ≡ hop.loss)
      × ((a.suspect ≡ true)
          ↔ ((fl.lt (fl.of_nat 0) hop.loss ≡ true) × Downstream tolerance hop.loss window i))

  verdict_head :
      (tolerance : fl.F) (x : HopLossSnapshot fl) (xs : List (HopLossSnapshot fl))
      → ((if fl.lt (fl.of_nat 0) x.loss then persists fl tolerance x.loss xs else false) ≡ true)
        ↔ ((fl.lt (fl.of_nat 0) x.loss ≡ true) × Downstream tolerance x.loss (x ∷ xs) 0)
  verdict_head tolerance x xs = elim (Bool-cases (fl.lt (fl.of_nat 0) x.loss)) [
    | inl p ↦ rw p (
      (λ h. (
        refl,
        elim [
          | zero ↦ λ g lt e. absurd (omega arith)
          | suc j ↦ λ g lt e. persists_sound tolerance x.loss xs j g h e
        ],
      )),
      (λ h. persists_complete tolerance x.loss xs (λ j g e. h.1 (suc j) g (omega arith) e)),
    )
    | inr p ↦ rw p ((λ h. cc), (λ h. cc))
  ]

  Downstream-cons :
      (tolerance loss : fl.F) (x : HopLossSnapshot fl) (xs : List (HopLossSnapshot fl)) (i : ℕ)
      → Downstream tolerance loss xs i ↔ Downstream tolerance loss (x ∷ xs) (suc i)
  Downstream-cons tolerance loss x xs i = (
    (λ h. elim [ zero ↦ λ g lt e. absurd (omega arith) | suc j ↦ λ g lt e. h j g (omega arith) e ]),
    (λ h j g lt e. h (suc j) g (omega arith) e),
  )

  Verdict-at :
      (window : List (HopLossSnapshot fl)) (tolerance : fl.F) (i : ℕ) (hop : HopLossSnapshot fl)
      → get_elem? window i ≡ some hop
      → (a : AttributedHopLoss fl) × (get_elem? (attributed_loss fl window tolerance) i ≡ some a)
        × Verdict tolerance hop window i a
  unfolding attributed_loss
  Verdict-at [] tolerance i hop e = cc
  Verdict-at (x ∷ xs) tolerance zero hop e =
      let p = some-inj e in
      (
        attribute fl tolerance x xs,
        refl,
        subst (λ h. Verdict tolerance h (x ∷ xs) 0 (attribute fl tolerance x xs)) p
            (refl, refl, verdict_head tolerance x xs),
      )
  Verdict-at (x ∷ xs) tolerance (suc i) hop e =
      let (a, p, (q, r, s)) = Verdict-at xs tolerance i hop e in
      let d = Downstream-cons tolerance hop.loss x xs i in
      (a, p, (q, r, ((λ h. let (u, v) = s.0 h in (u, d.0 v)), λ h. s.1 (h.0, d.1 h.1))))

  length-attributed_loss :
      (window : List (HopLossSnapshot fl)) (tolerance : fl.F)
      → length (attributed_loss fl window tolerance) ≡ length window
  unfolding attributed_loss
  length-attributed_loss [] tolerance = refl
  length-attributed_loss (x ∷ xs) tolerance = ap suc (length-attributed_loss xs tolerance)

  suspect_head_mono :
      (ordered : IsOrdered fl) (x : HopLossSnapshot fl) (xs : List (HopLossSnapshot fl))
      (t u : fl.F)
      → ordered.is_finite x.loss ≡ true
      → ordered.is_finite t ≡ true
      → ordered.is_number u ≡ true
      → fl.lt u t ≡ false
      → (if fl.lt (fl.of_nat 0) x.loss then persists fl t x.loss xs else false) ≡ true
      → (if fl.lt (fl.of_nat 0) x.loss then persists fl u x.loss xs else false) ≡ true
  suspect_head_mono ordered x xs t u fin tfin unum le h =
      let (p, d) = (verdict_head t x xs).0 h in
      (verdict_head u x xs).1 (
        p,
        λ j g lt e.
            ordered.not_lt_trans g.loss (fl.sub x.loss t) (fl.sub x.loss u)
              (ordered.sub_number x.loss t fin tfin) (d j g lt e)
              (ordered.sub_mono x.loss t u (ordered.finite_number t tfin) unum le),
      )

  -- The output has the window's length and order.  At each position it carries the hop's TTL and raw
  -- loss, and the hop is suspect exactly when it shows loss and every hop downstream shows at least
  -- that loss less the tolerance.
  pub attributed_loss_lem :
      (window : List (HopLossSnapshot fl)) (tolerance : fl.F)
      → (length (attributed_loss fl window tolerance) ≡ length window)
        × ((i : ℕ) (hop : HopLossSnapshot fl)
            → get_elem? window i ≡ some hop
            → (a : AttributedHopLoss fl) × (get_elem? (attributed_loss fl window tolerance) i
                ≡ some a)
              × (a.ttl ≡ hop.ttl)
              × (a.loss ≡ hop.loss)
              × ((a.suspect ≡ true) ↔ (
                  (fl.lt (fl.of_nat 0) hop.loss ≡ true) × Downstream tolerance hop.loss window i)))
  attributed_loss_lem window tolerance = (
    length-attributed_loss window tolerance,
    λ i hop e. let (a, p, (q, r, s)) = Verdict-at window tolerance i hop e in (a, p, q, r, s),
  )

  -- Raising the tolerance never clears a suspect hop: in a window whose losses are finite, a hop that
  -- is suspect under a finite tolerance is suspect under every tolerance that is not NaN and not less.
  pub suspect_mono :
      (ordered : IsOrdered fl) (window : List (HopLossSnapshot fl)) (t u : fl.F)
      → ((i : ℕ) (g : HopLossSnapshot fl)
          → get_elem? window i ≡ some g
          → ordered.is_finite g.loss ≡ true)
      → ordered.is_finite t ≡ true
      → ordered.is_number u ≡ true
      → fl.lt u t ≡ false
      → (i : ℕ) (a b : AttributedHopLoss fl) → get_elem? (attributed_loss fl window t) i ≡ some a
      → get_elem? (attributed_loss fl window u) i ≡ some b
      → a.suspect ≡ true
      → b.suspect ≡ true
  unfolding attributed_loss
  suspect_mono ordered [] t u fin tfin unum le i a b ea eb h = cc
  suspect_mono ordered (x ∷ xs) t u fin tfin unum le zero a b ea eb h =
      ap (λ r. r.suspect) (sym (some-inj eb))
      ∙ suspect_head_mono ordered x xs t u (fin 0 x refl) tfin unum le
          (ap (λ r. r.suspect) (some-inj ea) ∙ h)
  suspect_mono ordered (x ∷ xs) t u fin tfin unum le (suc i) a b ea eb h =
      suspect_mono ordered xs t u (λ j. fin (suc j)) tfin unum le i a b ea eb h

-- ===== src/Probe/Path/Snapshot/Rows.antt =====
-- The rows of a snapshot (`Snapshot` of internal/probe/path.go).
use hoptrail.Common.{
  ℕ, zero, suc, ◌+◌, ◌≤◌, ◌<◌, ◌≡◌, ◌≢◌, refl, sym, ap, ◌∙◌, inl, inr, Option, none, some, List, [],
  ◌∷◌, arith, get_or, get_elem?, Bool-cases, some-inj, ◌==◌, ==_iff,
}
use hoptrail.Common.Float.{Float}
use hoptrail.Probe.Path.{Hop, PathState}
use hoptrail.Probe.Path.Inv.{PathInv}
use hoptrail.Probe.Path.Snapshot.{
  HopSnapshot, hop_snapshot, append_row, rows_from, max_visible, snapshot,
}

module _ (fl : Float) (s : PathState) (inv : PathInv s) where
  -- TTLs that rise strictly from `lo` on and stay below `hi`.
  abbrev pub Ascending : ℕ → ℕ → List (HopSnapshot fl) → Type 0
  Ascending lo hi [] = Unit
  Ascending lo hi (row ∷ rows) = (lo ≤ row.ttl) × (row.ttl < hi) × Ascending (row.ttl + 1) hi rows

  -- The row of a hop that the path has.
  abbrev pub RowOf : HopSnapshot fl → Type 0
  RowOf row = (h : Hop) × (get_or s.hops row.ttl none ≡ some h) × (row ≡ hop_snapshot fl h)

  Ascending-lower :
      (lo lo' hi : ℕ) (rows : List (HopSnapshot fl))
      → lo ≤ lo'
      → Ascending lo' hi rows
      → Ascending lo hi rows
  Ascending-lower lo lo' hi [] h a = tt
  Ascending-lower lo lo' hi (row ∷ rows) h (p, q, a) = (omega arith, q, a)

  ttl-hop_snapshot :
      (ttl : ℕ) (h : Hop) → get_or s.hops ttl none ≡ some h → (hop_snapshot fl h).ttl ≡ ttl
  unfolding hop_snapshot
  ttl-hop_snapshot ttl h e = (inv.shapes ttl h e).place

  append_row-Ascending :
      (ttl hi : ℕ) (o : Option Hop) (rows : List (HopSnapshot fl))
      → get_or s.hops ttl none ≡ o
      → ttl < hi
      → Ascending (ttl + 1) hi rows
      → Ascending ttl hi (append_row fl o rows)
  append_row-Ascending ttl hi none rows e h a =
      Ascending-lower ttl (ttl + 1) hi rows (omega arith) a
  append_row-Ascending ttl hi (some hop) rows e h a =
      let p = ttl-hop_snapshot ttl hop e in
      (omega (arith, p), omega (arith, p), Ascending-lower _ (ttl + 1) hi rows (omega (arith, p)) a)

  rows_from-Ascending : (ttl n hi : ℕ) → ttl + n ≤ hi → Ascending ttl hi (rows_from fl s ttl n)
  unfolding rows_from
  rows_from-Ascending ttl zero hi h = tt
  rows_from-Ascending ttl (suc n) hi h =
      append_row-Ascending ttl hi (get_or s.hops ttl none) (rows_from fl s (ttl + 1) n) refl
        (omega arith) (rows_from-Ascending (ttl + 1) n hi (omega arith))

  append_row-RowOf :
      (ttl : ℕ) (o : Option Hop) (rows : List (HopSnapshot fl))
      → get_or s.hops ttl none ≡ o
      → ((i : ℕ) (row : HopSnapshot fl) → get_elem? rows i ≡ some row → RowOf row)
      → (i : ℕ) (row : HopSnapshot fl) → get_elem? (append_row fl o rows) i ≡ some row
      → RowOf row
  append_row-RowOf ttl none rows e h i row f = h i row f
  append_row-RowOf ttl (some hop) rows e h zero row f =
      let q = some-inj f in
      let at : row.ttl ≡ ttl = ap (λ r. r.ttl) (sym q) ∙ ttl-hop_snapshot ttl hop e in
      (hop, ap (λ k. get_or s.hops k none) at ∙ e, sym q)
  append_row-RowOf ttl (some hop) rows e h (suc i) row f = h i row f

  rows_from-RowOf :
      (ttl n i : ℕ) (row : HopSnapshot fl)
      → get_elem? (rows_from fl s ttl n) i ≡ some row
      → RowOf row
  unfolding rows_from
  rows_from-RowOf ttl zero i row h = cc
  rows_from-RowOf ttl (suc n) i row h =
      append_row-RowOf ttl (get_or s.hops ttl none) (rows_from fl s (ttl + 1) n) refl
        (rows_from-RowOf (ttl + 1) n) i row h

  append_row_later :
      (o : Option Hop) (rows : List (HopSnapshot fl)) (row : HopSnapshot fl)
      → (i : ℕ) × (get_elem? rows i ≡ some row)
      → (i : ℕ) × (get_elem? (append_row fl o rows) i ≡ some row)
  append_row_later none rows row h = h
  append_row_later (some hop) rows row (i, h) = (suc i, h)

  rows_from_complete :
      (ttl n j : ℕ) (h : Hop)
      → ttl ≤ j
      → j < ttl + n
      → get_or s.hops j none ≡ some h
      → (i : ℕ) × (get_elem? (rows_from fl s ttl n) i ≡ some (hop_snapshot fl h))
  unfolding rows_from
  rows_from_complete ttl zero j h lo hi e = absurd (omega arith)
  rows_from_complete ttl (suc n) j h lo hi e = elim (Bool-cases (ttl == j)) [
    | inl p ↦
        let q : get_or s.hops ttl none ≡ some h =
          ap (λ k. get_or s.hops k none) ((==_iff ttl j).0 p) ∙ e in
        (0, ap (λ o. get_elem? (append_row fl o (rows_from fl s (ttl + 1) n)) 0) q)
    | inr p ↦
        append_row_later (get_or s.hops ttl none) (rows_from fl s (ttl + 1) n) (hop_snapshot fl h)
          (rows_from_complete (ttl + 1) n j h (ground arith) (omega arith) e)
  ]

  rows_lem : (snapshot fl s).hops ≡ rows_from fl s 1 (max_visible s)
  unfolding snapshot rows_from
  rows_lem = elim (Bool-cases (s.max_seen == 0)) [
    | inl e ↦ let z : max_visible s ≡ 0 = ground arith in rw (e, z)
    | inr e ↦ rw e
  ]

  -- The rows of a snapshot rise strictly in their TTLs from 1 to the last visible one, which is at
  -- most the largest TTL that has answered and, where the target's TTL is known, at most that; each
  -- row is that of the hop at its TTL, and every hop at a visible TTL has a row.
  pub snapshot_lem :
      Ascending 1 (max_visible s + 1) (snapshot fl s).hops
      × (max_visible s ≤ s.max_seen)
      × (s.target_ttl ≢ 0 → max_visible s ≤ s.target_ttl)
      × ((i : ℕ) (row : HopSnapshot fl) → get_elem? (snapshot fl s).hops i ≡ some row → RowOf row)
      × ((ttl : ℕ) (h : Hop)
          → 1 ≤ ttl
          → ttl ≤ max_visible s
          → get_or s.hops ttl none ≡ some h
          → (i : ℕ) × (get_elem? (snapshot fl s).hops i ≡ some (hop_snapshot fl h)))
  snapshot_lem = rw rows_lem (
    rows_from-Ascending 1 (max_visible s) (max_visible s + 1) (omega arith),
    ground arith,
    (λ ne. ground arith),
    rows_from-RowOf 1 (max_visible s),
    λ ttl h lo hi e. rows_from_complete 1 (max_visible s) ttl h lo (omega arith) e,
  )

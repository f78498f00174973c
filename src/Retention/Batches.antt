-- ===== src/Retention/Batches.antt =====
-- What the batched deletion (internal/storage/retention.go) deletes.
use hoptrail.Common.{
  ℕ, zero, suc, ◌+◌, ◌-◌, ◌<◌, ◌≡◌, refl, ◌∙◌, ◌⊎◌, inl, inr, Bool, false, Option, some, List, [],
  ◌∷◌, arith, length, ltb, ltb→lt, if◌then◌else◌, Bool-cases,
}
use hoptrail.Retention.{delete_batch, Deleted, delete_samples_older_than}

-- The rows that are not older than the cutoff.
unfoldable pub young : ℕ → List ℕ → List ℕ
young cutoff [] = []
young cutoff (t ∷ ts) = let rest = young cutoff ts in if ltb t cutoff then rest else t ∷ rest

young-delete_batch :
    (limit cutoff : ℕ) (rows : List ℕ)
    → young cutoff (delete_batch limit cutoff rows).0 ≡ young cutoff rows
unfolding young delete_batch
young-delete_batch limit cutoff [] = refl
young-delete_batch limit cutoff (t ∷ ts) =
    ground (arith, young-delete_batch (limit - 1) cutoff ts, young-delete_batch limit cutoff ts)

length-delete_batch :
    (limit cutoff : ℕ) (rows : List ℕ)
    → length rows ≡ ((delete_batch limit cutoff rows).1 + length (delete_batch limit cutoff rows).0)
unfolding delete_batch
length-delete_batch limit cutoff [] = refl
length-delete_batch limit cutoff (t ∷ ts) =
    ground (arith, length-delete_batch (limit - 1) cutoff ts, length-delete_batch limit cutoff ts)

-- A batch that is not full has left no old row.
short_batch :
    (limit cutoff : ℕ) (rows : List ℕ)
    → (delete_batch limit cutoff rows).1 < limit
    → (delete_batch limit cutoff rows).0 ≡ young cutoff rows
unfolding young delete_batch
short_batch limit cutoff [] h = refl
short_batch limit cutoff (t ∷ ts) h =
    ground (arith, short_batch (limit - 1) cutoff ts, short_batch limit cutoff ts)

-- Every young row stays, the total counts the others that went, and an end without an error leaves
-- exactly the young rows.
abbrev pub Purged : ℕ → List ℕ → ℕ → Option Deleted → Type 0
Purged cutoff rows total o =
    (d : Deleted) × (o ≡ some d)
    × (young cutoff d.rows ≡ young cutoff rows)
    × ((total + length rows) ≡ (d.total + length d.rows))
    × ((d.ok ≡ false) ⊎ (d.rows ≡ young cutoff rows))

next-Purged :
    (batch_rows cutoff : ℕ) (rows : List ℕ) (total : ℕ) (o : Option Deleted)
    → Purged cutoff
        (delete_batch batch_rows cutoff rows).0
        (total + (delete_batch batch_rows cutoff rows).1)
        o
    → Purged cutoff rows total o
next-Purged batch_rows cutoff rows total o (d, q, y, l, e) =
    let v = young-delete_batch batch_rows cutoff rows in
    (
      d,
      q,
      y ∙ v,
      omega (arith, l, length-delete_batch batch_rows cutoff rows),
      elim e [ inl f ↦ inl f | inr r ↦ inr (r ∙ v) ],
    )

delete_loop-Purged :
    (fuel : ℕ) (fails : ℕ → Bool) (i batch_rows cutoff : ℕ) (rows : List ℕ) (total : ℕ)
    → 0 < batch_rows
    → length rows < fuel
    → Purged cutoff rows total (delete_samples_older_than fuel fails i batch_rows cutoff rows total)
unfolding delete_samples_older_than
delete_loop-Purged zero fails i batch_rows cutoff rows total p h = absurd (omega arith)
delete_loop-Purged (suc fuel) fails i batch_rows cutoff rows total p h =
    let l = length-delete_batch batch_rows cutoff rows in
    elim (Bool-cases (fails i)) [
      | inl s ↦ rw s (_, refl, refl, refl, inl refl)
      | inr s ↦ elim (Bool-cases (ltb (delete_batch batch_rows cutoff rows).1 batch_rows)) [
        | inl c ↦
            rw (s, c)
              (
                _,
                refl,
                young-delete_batch batch_rows cutoff rows,
                omega (arith, l),
                inr (short_batch batch_rows cutoff rows (ltb→lt _ _ c)),
              )
        | inr c ↦
            rw (s, c)
              (next-Purged batch_rows cutoff rows total _
                (delete_loop-Purged fuel fails (suc i) batch_rows cutoff _ _ p (ground (arith, l))))
      ]
    ]

-- With fuel beyond the number of rows, and batches of at least one row, the batched deletion returns:
-- whichever batch fails, every row that is not older than the cutoff stays and the total counts the
-- rows that went; without an error exactly the rows not older than the cutoff are left.
pub delete_samples_older_than_lem :
    (fails : ℕ → Bool) (batch_rows cutoff : ℕ) (rows : List ℕ)
    → 0 < batch_rows
    → Purged cutoff rows 0
        (delete_samples_older_than (suc (length rows)) fails 0 batch_rows cutoff rows 0)
delete_samples_older_than_lem fails batch_rows cutoff rows p =
    delete_loop-Purged (suc (length rows)) fails 0 batch_rows cutoff rows 0 p (omega arith)

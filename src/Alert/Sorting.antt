-- ===== src/Alert/Sorting.antt =====
-- The sorting of the lines of the quiet-hours message (internal/alert/engine.go).
use mathlib.Core.List.{Perm}
use mathlib.Core.List.Perm
use hoptrail.Common.{◌≡◌, refl, inl, inr, true, false, List, [], ◌∷◌, Bool-cases}
use hoptrail.Common.Text.{Text, text_lt, text_lt_asym, text_lt_trans}
use hoptrail.Alert.Summary.{insert_line, sort_lines}

-- No line of the list is less than the text.
unfoldable pub Floor : Text → List Text → Type 0
Floor s [] = true ≡ true
Floor s (t ∷ ts) = (text_lt t s ≡ false) × Floor s ts

unfoldable pub Sorted : List Text → Type 0
Sorted [] = true ≡ true
Sorted (s ∷ ss) = Floor s ss × Sorted ss

Floor-insert_line :
    (u s : Text) (ts : List Text) → text_lt s u ≡ false → Floor u ts → Floor u (insert_line s ts)
unfolding Floor insert_line
Floor-insert_line u s [] h a = (h, refl)
Floor-insert_line u s (t ∷ ts) h (p, a) = elim (Bool-cases (text_lt t s)) [
  | inl e ↦ rw e (p, Floor-insert_line u s ts h a)
  | inr e ↦ rw e (h, (p, a))
]

Floor-trans : (s t : Text) (ts : List Text) → text_lt t s ≡ false → Floor t ts → Floor s ts
unfolding Floor
Floor-trans s t [] h a = refl
Floor-trans s t (u ∷ us) h (p, a) = (text_lt_trans u t s p h, Floor-trans s t us h a)

Sorted-insert_line : (s : Text) (ts : List Text) → Sorted ts → Sorted (insert_line s ts)
unfolding Sorted Floor insert_line
Sorted-insert_line s [] a = (refl, refl)
Sorted-insert_line s (t ∷ ts) (p, a) = elim (Bool-cases (text_lt t s)) [
  | inl e ↦ rw e (Floor-insert_line t s ts (text_lt_asym t s e) p, Sorted-insert_line s ts a)
  | inr e ↦ rw e ((e, Floor-trans s t ts e p), (p, a))
]

pub sort_lines-Sorted : (ss : List Text) → Sorted (sort_lines ss)
unfolding Sorted sort_lines
sort_lines-Sorted [] = refl
sort_lines-Sorted (s ∷ ss) = Sorted-insert_line s (sort_lines ss) (sort_lines-Sorted ss)

insert_line-Perm : (s : Text) (ts : List Text) → Perm (insert_line s ts) (s ∷ ts)
unfolding insert_line
insert_line-Perm s [] = Perm.refl _
insert_line-Perm s (t ∷ ts) = elim (Bool-cases (text_lt t s)) [
  | inl e ↦ rw e (Perm.trans (Perm.cons t (insert_line-Perm s ts)) (Perm.swap _ _ _))
  | inr e ↦ rw e (Perm.refl _)
]

pub sort_lines-Perm : (ss : List Text) → Perm (sort_lines ss) ss
unfolding sort_lines
sort_lines-Perm [] = Perm.refl _
sort_lines-Perm (s ∷ ss) =
    Perm.trans (insert_line-Perm s (sort_lines ss)) (Perm.cons s (sort_lines-Perm ss))

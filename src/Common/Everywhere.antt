-- ===== src/Common/Everywhere.antt =====
-- What holds of every entry of a keyed table.
use hoptrail.Common.{
  ℕ, ◌≡◌, refl, ◌⊎◌, inl, inr, Bool, true, false, Option, some, List, [], ◌∷◌, All, leb,
  if◌then◌else◌, Bool-cases, some-inj, arith,
}
use mathlib.Core.Path.{subst}
use hoptrail.Common.Keyed.{find, put, erase, change, sort, insert}
use hoptrail.Common.Text.{Text, text_eq, text_eq_iff}

if-some {ℓ} :
    {A : Type ℓ} (b : Bool) (x y : A) (o : Option A)
    → (if b then some x else o) ≡ some y
    → ((b ≡ true) × (x ≡ y)) ⊎ ((b ≡ false) × (o ≡ some y))
if-some true x y o h = inl (refl, some-inj h)
if-some false x y o h = inr (refl, h)

module _ {ℓ κ} {A : Type ℓ} (key : A → Text) (P : A → Type κ) where
  pub put-All : (x : A) (xs : List A) → P x → All P xs → All P (put key x xs)
  unfolding put
  put-All x [] p ps = (p, ps)
  put-All x (y ∷ ys) p (q, qs) = elim (Bool-cases (text_eq (key y) (key x))) [
    | inl e ↦ rw e (p, qs)
    | inr e ↦ rw e (q, put-All x ys p qs)
  ]

  pub erase-All : (k : Text) (xs : List A) → All P xs → All P (erase key k xs)
  unfolding erase
  erase-All k [] ps = ps
  erase-All k (x ∷ xs) (p, ps) = elim (Bool-cases (text_eq (key x) k)) [
    | inl e ↦ rw e (erase-All k xs ps)
    | inr e ↦ rw e (p, erase-All k xs ps)
  ]

  pub change-All :
      (g : A → A) (k : Text) (xs : List A)
      → ((x : A) → P x → P (g x))
      → All P xs
      → All P (change key g k xs)
  unfolding change
  change-All g k [] h ps = ps
  change-All g k (x ∷ xs) h (p, ps) = elim (Bool-cases (text_eq (key x) k)) [
    | inl e ↦ rw e (h x p, change-All g k xs h ps)
    | inr e ↦ rw e (p, change-All g k xs h ps)
  ]

  pub found-All :
      (k : Text) (xs : List A) (x : A) → find key k xs ≡ some x → All P xs → P x × (key x ≡ k)
  unfolding find
  found-All k [] x h ps = absurd (ground arith)
  found-All k (y ∷ ys) x h (p, ps) = elim (if-some (text_eq (key y) k) y x (find key k ys) h) [
    | inl (e, i) ↦ subst (λ z. P z × (key z ≡ k)) i (p, (text_eq_iff (key y) k).0 e)
    | inr (e, i) ↦ found-All k ys x i ps
  ]

  insert-All : (at : A → ℕ) (x : A) (xs : List A) → P x → All P xs → All P (insert key at x xs)
  unfolding insert
  insert-All at x [] p ps = (p, ps)
  insert-All at x (y ∷ ys) p (q, qs) = elim (Bool-cases (leb (at x) (at y))) [
    | inl e ↦ rw e (p, (q, qs))
    | inr e ↦ rw e (q, insert-All at x ys p qs)
  ]

  pub sort-All : (at : A → ℕ) (xs : List A) → All P xs → All P (sort key at xs)
  unfolding sort
  sort-All at [] ps = ps
  sort-All at (x ∷ xs) (p, ps) = insert-All at x (sort key at xs) p (sort-All at xs ps)

-- ===== src/Common/Subsequence.antt =====
-- Lists that keep some elements of another list, in order.
use hoptrail.Common.{ℕ, zero, suc, List, [], ◌∷◌, ◌++◌, drop, map}

pub data Subsequence {ℓ} {A : Type ℓ} : List A → List A → Type ℓ where
  ended : Subsequence [] []
  kept : {x : A} {xs ys : List A} → Subsequence xs ys → Subsequence (x ∷ xs) (x ∷ ys)
  left_out : {y : A} {xs ys : List A} → Subsequence xs ys → Subsequence xs (y ∷ ys)

module _ {ℓ} {A : Type ℓ} where
  pub Subsequence-refl : (xs : List A) → Subsequence xs xs
  Subsequence-refl [] = ended
  Subsequence-refl (x ∷ xs) = kept (Subsequence-refl xs)

  pub Subsequence-trans :
      {ys zs : List A} → Subsequence ys zs → {xs : List A} → Subsequence xs ys → Subsequence xs zs
  Subsequence-trans ended p = p
  Subsequence-trans (kept q) (kept p) = kept (Subsequence-trans q p)
  Subsequence-trans (kept q) (left_out p) = left_out (Subsequence-trans q p)
  Subsequence-trans (left_out q) p = left_out (Subsequence-trans q p)

  -- An element at the end of both.
  pub Subsequence-snoc :
      {xs ys : List A} (a : A) → Subsequence xs ys → Subsequence (xs ++ a ∷ []) (ys ++ a ∷ [])
  Subsequence-snoc a ended = kept ended
  Subsequence-snoc a (kept p) = kept (Subsequence-snoc a p)
  Subsequence-snoc a (left_out p) = left_out (Subsequence-snoc a p)

  pub drop-Subsequence : (n : ℕ) (xs : List A) → Subsequence (drop n xs) xs
  drop-Subsequence zero xs = Subsequence-refl xs
  drop-Subsequence (suc n) [] = ended
  drop-Subsequence (suc n) (x ∷ xs) = left_out (drop-Subsequence n xs)

  pub append-Subsequence :
      (zs : List A) {xs ys : List A} → Subsequence xs ys → Subsequence (zs ++ xs) (zs ++ ys)
  append-Subsequence [] p = p
  append-Subsequence (z ∷ zs) p = kept (append-Subsequence zs p)

pub map-Subsequence {ℓ κ} :
    {A : Type ℓ} {B : Type κ} (f : A → B) {xs ys : List A}
    → Subsequence xs ys
    → Subsequence (map f xs) (map f ys)
map-Subsequence f ended = ended
map-Subsequence f (kept p) = kept (map-Subsequence f p)
map-Subsequence f (left_out p) = left_out (map-Subsequence f p)

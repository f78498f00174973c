-- ===== src/Common/Keyed.antt =====
-- Tables with a text as their key, as lists: Go maps and tables with a primary key.
use Prim.Native.Nat.{ℕ}
use mathlib.Core.Path.{◌≡◌, refl, sym, ap, ◌∙◌}
use mathlib.Core.Logic.{◌⊎◌, inl, inr}
use mathlib.Core.Bool.{Bool, true, false}
use mathlib.Core.Option.{Option, none, some}
use mathlib.Core.List.{List, [], ◌∷◌}
use native.Mathlib.Omega.{arith}
use hoptrail.Common.Tests.{leb, if◌then◌else◌, Bool-cases}
use hoptrail.Common.Text.{Text, text_eq, text_eq_iff}

abbrev pub is_some {ℓ} : {A : Type ℓ} → Option A → Bool
is_some none = false
is_some (some a) = true

pub is_some-found {ℓ} : {A : Type ℓ} (o : Option A) → is_some o ≡ true → (a : A) × (o ≡ some a)
is_some-found none h = absurd (ground arith)
is_some-found (some a) h = (a, refl)

abbrev pub mapped {ℓ κ} : {A : Type ℓ} {B : Type κ} → (A → B) → Option A → Option B
mapped g none = none
mapped g (some a) = some (g a)

pub text_eq_refl : (s : Text) → text_eq s s ≡ true
text_eq_refl s = (text_eq_iff s s).1 refl

pub text_eq_sym : (s t : Text) → text_eq s t ≡ text_eq t s
text_eq_sym s t = ground (arith, text_eq_iff s t, text_eq_iff t s)

-- Two texts that differ are not both the third.
apart : (s t u : Text) → text_eq s t ≡ false → (text_eq s u ≡ false) ⊎ (text_eq t u ≡ false)
apart s t u h = elim (Bool-cases (text_eq s u)) [
  | inr e ↦ inl e
  | inl e ↦ inr (text_eq_sym t u ∙ ap (λ x. text_eq x t) (sym ((text_eq_iff s u).0 e)) ∙ h)
]

if_swap {ℓ} :
    {A : Type ℓ} (a b : Bool) (x y z : A)
    → (a ≡ false) ⊎ (b ≡ false)
    → (if a then x else if b then y else z) ≡ (if b then y else if a then x else z)
if_swap true true x y z h = absurd (ground arith)
if_swap true false x y z h = refl
if_swap false b x y z h = refl

if_same {ℓ} :
    {A : Type ℓ} (b : Bool) (x y z : A)
    → (if b then x else z) ≡ (if b then x else if b then y else z)
if_same true x y z = refl
if_same false x y z = refl

if-none {ℓ} :
    {A : Type ℓ} (b : Bool) (x : A) (o : Option A)
    → (if b then some x else o) ≡ none
    → (b ≡ false) × (o ≡ none)
if-none true x o h = absurd (ground arith)
if-none false x o h = (refl, h)

if_mapped_same {ℓ} :
    {A : Type ℓ} (b : Bool) (g : A → A) (x : A) (o : Option A)
    → (if b then some (g x) else if b then mapped g o else o)
      ≡ (if b then mapped g (if b then some x else o) else if b then some x else o)
if_mapped_same true g x o = refl
if_mapped_same false g x o = refl

if_mapped_other {ℓ} :
    {A : Type ℓ} (a b : Bool) (g : A → A) (x : A) (o : Option A)
    → (a ≡ false) ⊎ (b ≡ false)
    → (if a then some x else if b then mapped g o else o)
      ≡ (if b then mapped g (if a then some x else o) else if a then some x else o)
if_mapped_other true true g x o h = absurd (ground arith)
if_mapped_other true false g x o h = refl
if_mapped_other false true g x o h = refl
if_mapped_other false false g x o h = refl

module _ {ℓ} {A : Type ℓ} (key : A → Text) where
  unfoldable pub find : Text → List A → Option A
  find k [] = none
  find k (x ∷ xs) = let rest = find k xs in if text_eq (key x) k then some x else rest

  -- The entry takes the place of the one with its key, or is added.
  unfoldable pub put : A → List A → List A
  put x [] = x ∷ []
  put x (y ∷ ys) = let rest = put x ys in if text_eq (key y) (key x) then x ∷ ys else y ∷ rest

  unfoldable pub erase : Text → List A → List A
  erase k [] = []
  erase k (x ∷ xs) = let rest = erase k xs in if text_eq (key x) k then rest else x ∷ rest

  -- The entries of the key are changed.
  unfoldable pub change : (A → A) → Text → List A → List A
  change g k [] = []
  change g k (x ∷ xs) = (if text_eq (key x) k then g x else x) ∷ change g k xs

  pub find-put :
      (k : Text) (x : A) (xs : List A)
      → find k (put x xs) ≡ (if text_eq (key x) k then some x else find k xs)
  unfolding find put
  find-put k x [] = refl
  find-put k x (y ∷ ys) = elim (Bool-cases (text_eq (key y) (key x))) [
    | inl e ↦
        rw (e, (text_eq_iff (key y) (key x)).0 e)
          (if_same (text_eq (key x) k) (some x) (some y) (find k ys))
    | inr e ↦
        rw (e, find-put k x ys)
          (if_swap (text_eq (key y) k) (text_eq (key x) k) (some y) (some x) (find k ys)
            (apart (key y) (key x) k e))
  ]

  pub find-erase :
      (k j : Text) (xs : List A) → find k (erase j xs) ≡ (if text_eq j k then none else find k xs)
  unfolding find erase
  find-erase k j [] = ground arith
  find-erase k j (x ∷ xs) = elim (Bool-cases (text_eq (key x) j)) [
    | inl e ↦
        rw (e, find-erase k j xs, (text_eq_iff (key x) j).0 e)
          (if_same (text_eq j k) none (some x) (find k xs))
    | inr e ↦
        rw (e, find-erase k j xs)
          (if_swap (text_eq (key x) k) (text_eq j k) (some x) none (find k xs)
            (apart (key x) j k e))
  ]

  pub find-change :
      (g : A → A) (k j : Text) (xs : List A)
      → ((x : A) → key (g x) ≡ key x)
      → find k (change g j xs) ≡ (if text_eq j k then mapped g (find k xs) else find k xs)
  unfolding find change
  find-change g k j [] h = ground arith
  find-change g k j (x ∷ xs) h = elim (Bool-cases (text_eq (key x) j)) [
    | inl e ↦
        rw (e, h x, find-change g k j xs h, (text_eq_iff (key x) j).0 e)
          (if_mapped_same (text_eq j k) g x (find k xs))
    | inr e ↦
        rw (e, find-change g k j xs h)
          (if_mapped_other (text_eq (key x) k) (text_eq j k) g x (find k xs) (apart (key x) j k e))
  ]

  -- No two entries have one key.
  abbrev pub Distinct : List A → Type ℓ
  Distinct [] = Unit
  Distinct (x ∷ xs) = (find (key x) xs ≡ none) × Distinct xs

  pub put-Distinct : (x : A) (xs : List A) → Distinct xs → Distinct (put x xs)
  unfolding find put
  put-Distinct x [] d = (refl, tt)
  put-Distinct x (y ∷ ys) (d, ds) = elim (Bool-cases (text_eq (key y) (key x))) [
    | inl e ↦ rw e (sym (ap (λ k. find k ys) ((text_eq_iff (key y) (key x)).0 e)) ∙ d, ds)
    | inr e ↦
        rw e (rw (find-put (key y) x ys, text_eq_sym (key x) (key y), e) d, put-Distinct x ys ds)
  ]

  pub erase-Distinct : (k : Text) (xs : List A) → Distinct xs → Distinct (erase k xs)
  unfolding find erase
  erase-Distinct k [] d = d
  erase-Distinct k (x ∷ xs) (d, ds) = elim (Bool-cases (text_eq (key x) k)) [
    | inl e ↦ rw e (erase-Distinct k xs ds)
    | inr e ↦
        rw e (rw (find-erase (key x) k xs, text_eq_sym k (key x), e) d, erase-Distinct k xs ds)
  ]

  pub change-Distinct :
      (g : A → A) (k : Text) (xs : List A)
      → ((x : A) → key (g x) ≡ key x)
      → Distinct xs
      → Distinct (change g k xs)
  unfolding find change
  change-Distinct g k [] h d = d
  change-Distinct g k (x ∷ xs) h (d, ds) = elim (Bool-cases (text_eq (key x) k)) [
    | inl e ↦
        rw (e, h x)
          (
            rw (find-change g (key x) k xs h, text_eq_sym k (key x), e, d) refl,
            change-Distinct g k xs h ds,
          )
    | inr e ↦
        rw e (
          rw (find-change g (key x) k xs h, text_eq_sym k (key x), e) d,
          change-Distinct g k xs h ds,
        )
  ]

module _ {ℓ} {A : Type ℓ} (key : A → Text) (at : A → ℕ) where
  -- `ORDER BY at ASC`
  unfoldable pub insert : A → List A → List A
  insert x [] = x ∷ []
  insert x (y ∷ ys) = let rest = insert x ys in if leb (at x) (at y) then x ∷ y ∷ ys else y ∷ rest

  unfoldable pub sort : List A → List A
  unfolding insert
  sort [] = []
  sort (x ∷ xs) = insert x (sort xs)

  find-insert :
      (k : Text) (x : A) (xs : List A)
      → find key (key x) xs ≡ none
      → find key k (insert x xs) ≡ (if text_eq (key x) k then some x else find key k xs)
  unfolding find insert
  find-insert k x [] h = refl
  find-insert k x (y ∷ ys) h = elim (Bool-cases (leb (at x) (at y))) [
    | inl l ↦ rw l refl
    | inr l ↦
        let p = if-none (text_eq (key y) (key x)) y (find key (key x) ys) h in
        rw (l, find-insert k x ys p.1)
          (if_swap (text_eq (key y) k) (text_eq (key x) k) (some y) (some x) (find key k ys)
            (apart (key y) (key x) k p.0))
  ]

  -- The order of the rows does not matter to a lookup.
  pub find-sort : (k : Text) (xs : List A) → Distinct key xs → find key k (sort xs) ≡ find key k xs
  unfolding find sort
  find-sort k [] d = refl
  find-sort k (x ∷ xs) (d, ds) =
      find-insert k x (sort xs) (find-sort (key x) xs ds ∙ d)
      ∙ ap (λ o. if text_eq (key x) k then some x else o) (find-sort k xs ds)

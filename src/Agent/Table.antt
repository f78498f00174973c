-- ===== src/Agent/Table.antt =====
-- The order and the key of the spill buffer's table (internal/agent/buffer.go), and what keeps them.
use hoptrail.Common.{
  ℕ, zero, suc, ◌≡◌, refl, sym, inl, inr, true, false, List, [], ◌∷◌, arith, drop, Bool-cases,
}
use hoptrail.Common.Text.{Text, text_eq, text_eq_iff, text_lt_asym, text_lt_trans}
use hoptrail.Agent.Buffer.{Batch, earlier, insert_batch, remove_id, remove_oldest, store_batch}

-- No row of the list has the id.
unfoldable pub Unknown : Text → List Batch → Type 0
Unknown k [] = true ≡ true
Unknown k (b ∷ bs) = (text_eq b.batch_id k ≡ false) × Unknown k bs

-- No row of the list comes before the batch.
unfoldable pub NoneBefore : Batch → List Batch → Type 0
NoneBefore a [] = true ≡ true
NoneBefore a (b ∷ bs) = (earlier b a ≡ false) × NoneBefore a bs

-- The rows are in their order, with distinct ids: `batch_id` is the primary key.
unfoldable pub Table : List Batch → Type 0
Table [] = true ≡ true
Table (b ∷ bs) = Unknown b.batch_id bs × NoneBefore b bs × Table bs

earlier_asym : (a b : Batch) → earlier a b ≡ true → earlier b a ≡ false
unfolding earlier
earlier_asym a b h = ground (arith, text_lt_asym a.batch_id b.batch_id)

earlier_trans : (a b c : Batch) → earlier a b ≡ false → earlier b c ≡ false → earlier a c ≡ false
unfolding earlier
earlier_trans a b c h k = ground (arith, text_lt_trans a.batch_id b.batch_id c.batch_id)

remove_id-Unknown : (k : Text) (bs : List Batch) → Unknown k bs → remove_id k bs ≡ bs
unfolding remove_id Unknown
remove_id-Unknown k [] u = refl
remove_id-Unknown k (b ∷ bs) (q, u) = rw (q, remove_id-Unknown k bs u)

text_eq_refl : (k : Text) → text_eq k k ≡ true
text_eq_refl k = (text_eq_iff k k).1 refl

pub remove_oldest_lem : (bs : List Batch) → Table bs → remove_oldest bs ≡ drop 1 bs
unfolding Table remove_id
remove_oldest_lem [] t = refl
remove_oldest_lem (b ∷ bs) (u, _, _) =
    rw (text_eq_refl b.batch_id) (remove_id-Unknown b.batch_id bs u)

Unknown-remove_id : (j k : Text) (bs : List Batch) → Unknown j bs → Unknown j (remove_id k bs)
unfolding remove_id Unknown
Unknown-remove_id j k [] u = refl
Unknown-remove_id j k (b ∷ bs) (q, u) = elim (Bool-cases (text_eq b.batch_id k)) [
  | inl s ↦ rw s (Unknown-remove_id j k bs u)
  | inr s ↦ rw s (q, Unknown-remove_id j k bs u)
]

Unknown-removed : (k : Text) (bs : List Batch) → Unknown k (remove_id k bs)
unfolding remove_id Unknown
Unknown-removed k [] = refl
Unknown-removed k (b ∷ bs) = elim (Bool-cases (text_eq b.batch_id k)) [
  | inl s ↦ rw s (Unknown-removed k bs)
  | inr s ↦ rw (s, s) (refl, Unknown-removed k bs)
]

NoneBefore-remove_id :
    (a : Batch) (k : Text) (bs : List Batch) → NoneBefore a bs → NoneBefore a (remove_id k bs)
unfolding remove_id NoneBefore
NoneBefore-remove_id a k [] u = refl
NoneBefore-remove_id a k (b ∷ bs) (q, u) = elim (Bool-cases (text_eq b.batch_id k)) [
  | inl s ↦ rw s (NoneBefore-remove_id a k bs u)
  | inr s ↦ rw s (q, NoneBefore-remove_id a k bs u)
]

pub Table-remove_id : (k : Text) (bs : List Batch) → Table bs → Table (remove_id k bs)
unfolding Table remove_id
Table-remove_id k [] t = refl
Table-remove_id k (b ∷ bs) (u, n, t) = elim (Bool-cases (text_eq b.batch_id k)) [
  | inl s ↦ rw s (Table-remove_id k bs t)
  | inr s ↦
      rw s
        (Unknown-remove_id b.batch_id k bs u, NoneBefore-remove_id b k bs n, Table-remove_id k bs t)
]

Unknown-insert_batch :
    (j : Text) (a : Batch) (bs : List Batch)
    → text_eq a.batch_id j ≡ false
    → Unknown j bs
    → Unknown j (insert_batch a bs)
unfolding insert_batch Unknown
Unknown-insert_batch j a [] h u = (h, refl)
Unknown-insert_batch j a (b ∷ bs) h (q, u) = elim (Bool-cases (earlier b a)) [
  | inl s ↦ rw s (q, Unknown-insert_batch j a bs h u)
  | inr s ↦ rw s (h, (q, u))
]

NoneBefore-insert_batch :
    (c a : Batch) (bs : List Batch)
    → earlier a c ≡ false
    → NoneBefore c bs
    → NoneBefore c (insert_batch a bs)
unfolding insert_batch NoneBefore
NoneBefore-insert_batch c a [] h u = (h, refl)
NoneBefore-insert_batch c a (b ∷ bs) h (q, u) = elim (Bool-cases (earlier b a)) [
  | inl s ↦ rw s (q, NoneBefore-insert_batch c a bs h u)
  | inr s ↦ rw s (h, (q, u))
]

NoneBefore-trans :
    (a b : Batch) (bs : List Batch) → earlier b a ≡ false → NoneBefore b bs → NoneBefore a bs
unfolding NoneBefore
NoneBefore-trans a b [] h n = refl
NoneBefore-trans a b (c ∷ cs) h (q, n) = (earlier_trans c b a q h, NoneBefore-trans a b cs h n)

text_eq-false_sym : (j k : Text) → text_eq j k ≡ false → text_eq k j ≡ false
text_eq-false_sym j k h = elim (Bool-cases (text_eq k j)) [
  | inl s ↦ cc ((text_eq_iff j k).1 (sym ((text_eq_iff k j).0 s)))
  | inr s ↦ s
]

Table-insert_batch :
    (a : Batch) (bs : List Batch) → Unknown a.batch_id bs → Table bs → Table (insert_batch a bs)
unfolding Table insert_batch Unknown NoneBefore
Table-insert_batch a [] u t = (refl, refl, refl)
Table-insert_batch a (b ∷ bs) (q, u) (v, n, t) = elim (Bool-cases (earlier b a)) [
  | inl s ↦ rw s (
    Unknown-insert_batch b.batch_id a bs (text_eq-false_sym _ _ q) v,
    NoneBefore-insert_batch b a bs (earlier_asym b a s) n,
    Table-insert_batch a bs u t,
  )
  | inr s ↦ rw s ((q, u), (s, NoneBefore-trans a b bs s n), (v, n, t))
]

pub Table-store_batch : (a : Batch) (bs : List Batch) → Table bs → Table (store_batch a bs)
Table-store_batch a bs t =
    Table-insert_batch a (remove_id a.batch_id bs) (Unknown-removed a.batch_id bs)
      (Table-remove_id a.batch_id bs t)

pub Table-drop : (n : ℕ) (bs : List Batch) → Table bs → Table (drop n bs)
unfolding Table
Table-drop zero bs t = t
Table-drop (suc n) [] t = refl
Table-drop (suc n) (b ∷ bs) (_, _, t) = Table-drop n bs t

-- ===== src/Agent/Evict.antt =====
-- The bound and the order of the spill buffer (internal/agent/buffer.go).
use hoptrail.Common.{
  ℕ, zero, suc, ◌+◌, ◌-◌, ◌≤◌, ◌<◌, ◌≡◌, refl, ap, ◌∙◌, ◌⊎◌, inl, inr, false, ◌||◌, List, [], ◌∷◌,
  arith, length, drop, ltb, leb, leb→le, Bool-cases,
}
use hoptrail.Agent.Buffer.{
  Batch, Buffer, AddFaults, total, Added, added, failed, evict_loop, store_batch, commit_add, add,
  after_add,
}
use hoptrail.Agent.Table.{Table, Table-store_batch, Table-drop, remove_oldest_lem}

-- The loop evicts from the front until the rest fits, and no further.
abbrev Fitted : ℕ → List Batch → ℕ → Added → Type 0
Fitted max_bytes rows e r =
    ((n : ℕ) × (r ≡ failed n))
    ⊎ ((n : ℕ) × (r ≡ added (drop n rows) (e + n))
        × (total (drop n rows) ≤ max_bytes)
        × ((m : ℕ) → m < n → max_bytes < total (drop m rows)))

more_evicted :
    (max_bytes n m : ℕ) (b : Batch) (bs : List Batch)
    → max_bytes < total (b ∷ bs)
    → ((k : ℕ) → k < n → max_bytes < total (drop k bs))
    → m < suc n
    → max_bytes < total (drop m (b ∷ bs))
more_evicted max_bytes n zero b bs h p k = h
more_evicted max_bytes n (suc m) b bs h p k = p m (omega arith)

-- One row evicted, then the rest.
step-Fitted :
    (max_bytes : ℕ) (rows : List Batch) (e : ℕ) (r : Added)
    → leb (total rows) max_bytes ≡ false
    → Fitted max_bytes (drop 1 rows) (suc e) r
    → Fitted max_bytes rows e r
unfolding total
step-Fitted max_bytes [] e r h x = absurd (ground arith)
step-Fitted max_bytes (b ∷ bs) e r h (inl x) = inl x
step-Fitted max_bytes (b ∷ bs) e r h (inr (n, q, l, p)) = inr (
  suc n,
  q ∙ ap (added (drop n bs)) (omega arith),
  l,
  λ m k. more_evicted max_bytes n m b bs (ground arith) p k,
)

length-drop_1 :
    (rows : List Batch) (n max_bytes : ℕ)
    → leb (total rows) max_bytes ≡ false
    → length rows < suc n
    → length (drop 1 rows) < n
unfolding total
length-drop_1 [] n max_bytes l h = absurd (ground arith)
length-drop_1 (b ∷ bs) n max_bytes l h = omega arith

evict_loop-Fitted :
    (fuel : ℕ) (f : AddFaults) (max_bytes : ℕ) (rows : List Batch) (e : ℕ)
    → Table rows
    → length rows < fuel
    → Fitted max_bytes rows e (evict_loop fuel f max_bytes rows e)
unfolding evict_loop
evict_loop-Fitted zero f max_bytes rows e t h = absurd (omega arith)
evict_loop-Fitted (suc fuel) f max_bytes rows e t h = elim (Bool-cases (f.size e)) [
  | inl s ↦ rw s (inl (e, refl))
  | inr s ↦ elim (Bool-cases (leb (total rows) max_bytes)) [
    | inl l ↦
        rw (s, l)
          (inr (0, ap (added rows) (omega arith), leb→le _ _ l, λ m p. absurd (omega arith)))
    | inr l ↦ elim (Bool-cases (f.evict e)) [
      | inl v ↦ rw (s, l, v) (inl (e, refl))
      | inr v ↦
          rw (s, l, v, remove_oldest_lem rows t)
            (step-Fitted max_bytes rows e _ l (
              evict_loop-Fitted fuel f max_bytes (drop 1 rows) (suc e) (Table-drop 1 rows t)
                (length-drop_1 rows fuel max_bytes l h)))
    ]
  ]
]

abbrev pub Kept : Buffer → Batch → Added → Type 0
Kept b a r =
    ((n : ℕ) × (r ≡ failed n))
    ⊎ ((n : ℕ) × (r ≡ added (drop n (store_batch a b.rows)) n)
        × (total (drop n (store_batch a b.rows)) ≤ b.max_bytes)
        × ((n ≡ 0) ⊎ (b.max_bytes < total (drop (n - 1) (store_batch a b.rows)))))

zero_add : (n : ℕ) → (0 + n) ≡ n
zero_add n = omega arith

suc_pred : (n : ℕ) → (suc n - 1) ≡ n
suc_pred n = omega arith

-- The last eviction was needed.
last_needed :
    (n max_bytes : ℕ) (rows : List Batch)
    → ((m : ℕ) → m < n → max_bytes < total (drop m rows))
    → (n ≡ 0) ⊎ (max_bytes < total (drop (n - 1) rows))
last_needed zero max_bytes rows p = inl refl
last_needed (suc n) max_bytes rows p = inr (rw (suc_pred n) (p n (omega arith)))

commit-Kept :
    (f : AddFaults) (a : Batch) (b : Buffer) (r : Added)
    → Fitted b.max_bytes (store_batch a b.rows) 0 r
    → Kept b a (commit_add f r)
commit-Kept f a b r (inl (n, q)) = inl (n, ap (commit_add f) q)
commit-Kept f a b r (inr (n, q, l, p)) =
    let q' : r ≡ added (drop n (store_batch a b.rows)) n =
      q ∙ ap (added (drop n (store_batch a b.rows))) (zero_add n) in
    elim (Bool-cases f.commit) [
      | inl c ↦ inl (n, ap (commit_add f) q' ∙ rw c refl)
      | inr c ↦ inr (n, ap (commit_add f) q' ∙ rw c refl, l, last_needed n b.max_bytes _ p)
    ]

-- An `Add` of a batch to a buffer in its order returns; where it succeeds, what it keeps fits the
-- bound and is what was stored with the new batch without its oldest rows, as many as it reports and
-- no more than the bound requires.
pub add_lem : (f : AddFaults) (b : Buffer) (a : Batch) → Table b.rows → Kept b a (add f b a)
unfolding add
add_lem f b a t = elim (Bool-cases (ltb b.max_bytes (length a.payload))) [
  | inl s ↦ rw s (inl (0, refl))
  | inr s ↦ elim (Bool-cases (f.begin || f.insert)) [
    | inl v ↦ rw (s, v) (inl (0, refl))
    | inr v ↦
        rw (s, v)
          (commit-Kept f a b _ (
            evict_loop-Fitted (suc (length (store_batch a b.rows))) f b.max_bytes
              (store_batch a b.rows) 0 (Table-store_batch a b.rows t) (omega arith)))
  ]
]

-- An `Add` keeps the rows in their order with distinct ids, and a total within the bound.
pub after_add-Table :
    (f : AddFaults) (b : Buffer) (a : Batch)
    → Table b.rows
    → total b.rows ≤ b.max_bytes
    → Table (after_add b (add f b a)).rows × (total (after_add b (add f b a)).rows ≤ b.max_bytes)
after_add-Table f b a t h = elim (add_lem f b a t) [
  | inl (n, q) ↦ rw q (t, h)
  | inr (n, q, l, p) ↦ rw q (Table-drop n _ (Table-store_batch a b.rows t), l)
]

-- ===== src/Alert/Incidents.antt =====
-- What the quiet-hours summary (`flushSummary`, internal/alert/engine.go) tells of each incident.
use hoptrail.Common.{
  ◌≡◌, refl, sym, ap, ap₂, ◌∙◌, ◌⊎◌, inl, inr, Bool, true, false, not, ◌&&◌, Option, none, some,
  List, [], ◌∷◌, ◌++◌, append-nil, append_assoc, map, arith, Bool-cases, if◌then◌else◌,
}
use hoptrail.Alert.Store.{Key, same_key, SummaryEntry}
use hoptrail.Alert.Keys.{same_key_iff, same_key_refl}
use hoptrail.Alert.Summary.{Pair, add_entry, add_to, fold_pairs}

-- The first entry of the list that raises the incident.
unfoldable pub first_raise : Key → List SummaryEntry → Option SummaryEntry
first_raise k [] = none
first_raise k (en ∷ ens) =
    let rest = first_raise k ens in if same_key en.key k && not en.recovery then some en else rest

abbrev pub or_else : Option SummaryEntry → Option SummaryEntry → Option SummaryEntry
or_else (some a) o = some a
or_else none o = o

-- The last entry of the list that ends the incident.
unfoldable pub last_recovery : Key → List SummaryEntry → Option SummaryEntry
last_recovery k [] = none
last_recovery k (en ∷ ens) =
    or_else (last_recovery k ens) (if same_key en.key k && en.recovery then some en else none)

unfoldable pub without : Key → List Key → List Key
without k [] = []
without k (j ∷ js) = let rest = without k js in if same_key j k then rest else j ∷ rest

-- The incidents that the entries name, each once, in the order in which they first occur.
unfoldable pub incidents : List SummaryEntry → List Key
incidents [] = []
incidents (en ∷ ens) = en.key ∷ without en.key (incidents ens)

abbrev pub pair_of : List SummaryEntry → Key → Pair
pair_of ens k = record { key = k; raised = first_raise k ens; recovery = last_recovery k ens }

-- The incidents once an entry of the incident `k` has come last.
unfoldable add_key : Key → List Key → List Key
add_key k [] = k ∷ []
add_key k (j ∷ js) = let rest = add_key k js in if same_key j k then j ∷ js else j ∷ rest

unfoldable has_key : Key → List Key → Bool
has_key k [] = false
has_key k (j ∷ js) = let rest = has_key k js in if same_key j k then true else rest

first_raise_last :
    (k : Key) (xs : List SummaryEntry) (en : SummaryEntry)
    → first_raise k (xs ++ en ∷ [])
      ≡ or_else (first_raise k xs) (if same_key en.key k && not en.recovery then some en else none)
unfolding first_raise
first_raise_last k [] en = refl
first_raise_last k (x ∷ xs) en = ground (arith, first_raise_last k xs en)

last_recovery_last :
    (k : Key) (xs : List SummaryEntry) (en : SummaryEntry)
    → last_recovery k (xs ++ en ∷ [])
      ≡ or_else (if same_key en.key k && en.recovery then some en else none) (last_recovery k xs)
unfolding last_recovery
last_recovery_last k [] en = ground arith
last_recovery_last k (x ∷ xs) en = rw (last_recovery_last k xs en) (ground arith)

same_key_flip : (a b : Key) → same_key a b ≡ same_key b a
same_key_flip a b = elim (Bool-cases (same_key a b)) [
  | inl s ↦ s ∙ sym ((same_key_iff b a).1 (sym ((same_key_iff a b).0 s)))
  | inr s ↦ elim (Bool-cases (same_key b a)) [
    | inl t ↦ absurd (cc (s, (same_key_iff a b).1 (sym ((same_key_iff b a).0 t))))
    | inr t ↦ s ∙ sym t
  ]
]

same_key_cong : (a b k : Key) → same_key a b ≡ true → same_key a k ≡ same_key b k
same_key_cong a b k s = ap (λ x. same_key x k) ((same_key_iff a b).0 s)

pair_of_other :
    (k : Key) (xs : List SummaryEntry) (en : SummaryEntry)
    → same_key en.key k ≡ false
    → pair_of (xs ++ en ∷ []) k ≡ pair_of xs k
pair_of_other k xs en h =
    ap₂ (λ r q. record { key = k; raised = r; recovery = q })
      (first_raise_last k xs en ∙ ground arith) (last_recovery_last k xs en ∙ ground arith)

pair_of_same :
    (k : Key) (xs : List SummaryEntry) (en : SummaryEntry)
    → same_key en.key k ≡ true
    → add_entry en (pair_of xs k) ≡ pair_of (xs ++ en ∷ []) k
pair_of_same k xs en h = sym (
    ap₂ (λ r q. record { key = k; raised = r; recovery = q }) (first_raise_last k xs en)
      (last_recovery_last k xs en)
    ∙ ground arith)

pairs_of_others :
    (ks : List Key) (xs : List SummaryEntry) (en : SummaryEntry)
    → has_key en.key ks ≡ false
    → map (pair_of xs) ks ≡ map (pair_of (xs ++ en ∷ [])) ks
unfolding has_key
pairs_of_others [] xs en h = refl
pairs_of_others (k ∷ ks) xs en h = elim (Bool-cases (same_key k en.key)) [
  | inl s ↦ absurd (ground arith)
  | inr s ↦
      ap₂ (λ p ps. p ∷ ps) (sym (pair_of_other k xs en (same_key_flip en.key k ∙ s)))
        (pairs_of_others ks xs en (ground arith))
]

unfoldable once : List Key → Bool
once [] = true
once (k ∷ ks) = not (has_key k ks) && once ks

has_key-without :
    (j k : Key) (ks : List Key) → has_key j (without k ks) ≡ (has_key j ks && not (same_key k j))
unfolding has_key without
has_key-without j k [] = refl
has_key-without j k (i ∷ is) = elim (Bool-cases (same_key i k)) [
  | inl s ↦ rw s (ground (arith, has_key-without j k is, same_key_cong i k j s))
  | inr s ↦ elim (Bool-cases (same_key i j)) [
    | inl t ↦ ground (arith, same_key_flip k j, same_key_cong i j k t, same_key_flip k i)
    | inr t ↦ ground (arith, has_key-without j k is)
  ]
]

once-without : (k : Key) (ks : List Key) → once ks ≡ true → once (without k ks) ≡ true
unfolding once without
once-without k [] h = refl
once-without k (i ∷ is) h = ground (arith, once-without k is, has_key-without i k is)

once-incidents : (ens : List SummaryEntry) → once (incidents ens) ≡ true
unfolding once incidents
once-incidents [] = refl
once-incidents (en ∷ ens) = ground (
  arith,
  has_key-without en.key en.key (incidents ens),
  same_key_refl en.key,
  once-without en.key (incidents ens) (once-incidents ens),
)

without-add_key :
    (j k : Key) (ks : List Key)
    → without j (add_key k ks) ≡ (if same_key k j then without j ks else add_key k (without j ks))
unfolding without add_key
without-add_key j k [] = refl
without-add_key j k (i ∷ is) = elim (Bool-cases (same_key i k)) [
  | inl s ↦ rw s (ground (arith, same_key_cong i k j s))
  | inr s ↦ rw s (ground (arith, without-add_key j k is, same_key_flip i j))
]

incidents_last :
    (xs : List SummaryEntry) (en : SummaryEntry)
    → incidents (xs ++ en ∷ []) ≡ add_key en.key (incidents xs)
unfolding incidents add_key without
incidents_last [] en = refl
incidents_last (x ∷ xs) en =
    rw (incidents_last xs en, without-add_key x.key en.key (incidents xs))
      (ground (arith, same_key_flip x.key en.key))

named_or_blank :
    (k : Key) (xs : List SummaryEntry)
    → (has_key k (incidents xs) ≡ true) ⊎ (pair_of xs k ≡ pair_of [] k)
unfolding incidents has_key first_raise last_recovery
named_or_blank k [] = inr refl
named_or_blank k (x ∷ xs) = elim (Bool-cases (same_key x.key k)) [
  | inl s ↦ inl (rw s refl)
  | inr s ↦ elim (named_or_blank k xs) [
    | inl h ↦ inl (ground (arith, has_key-without k x.key (incidents xs)))
    | inr e ↦ inr (
        ap₂ (λ r q. record { key = k; raised = r; recovery = q })
          (ground (arith, ap (λ p. p.raised) e)) (ground (arith, ap (λ p. p.recovery) e)))
  ]
]

add_to_pairs :
    (ks : List Key) (xs : List SummaryEntry) (en : SummaryEntry)
    → once ks ≡ true
    → (has_key en.key ks ≡ true) ⊎ (pair_of xs en.key ≡ pair_of [] en.key)
    → add_to en (map (pair_of xs) ks) ≡ map (pair_of (xs ++ en ∷ [])) (add_key en.key ks)
unfolding add_to add_key has_key once first_raise last_recovery
add_to_pairs [] xs en o (inl h) = cc
add_to_pairs [] xs en o (inr e) =
    ap (λ p. add_entry en p ∷ []) (sym e)
    ∙ ap (λ p. p ∷ []) (pair_of_same en.key xs en (same_key_refl en.key))
add_to_pairs (k ∷ ks) xs en o h = elim (Bool-cases (same_key k en.key)) [
  | inl s ↦ rw s (
      ap₂ (λ p ps. p ∷ ps) (pair_of_same k xs en (same_key_flip en.key k ∙ s))
        (pairs_of_others ks xs en
          (ap (λ x. has_key x ks) (sym ((same_key_iff k en.key).0 s)) ∙ ground arith)))
  | inr s ↦ rw s (
      ap₂ (λ p ps. p ∷ ps) (sym (pair_of_other k xs en (same_key_flip en.key k ∙ s)))
        (add_to_pairs ks xs en (ground arith)
          (elim h [ inl q ↦ inl (ground arith) | inr e ↦ inr e ])))
]

fold_pairs_from :
    (ens xs : List SummaryEntry)
    → fold_pairs ens (map (pair_of xs) (incidents xs))
      ≡ map (pair_of (xs ++ ens)) (incidents (xs ++ ens))
unfolding fold_pairs
fold_pairs_from [] xs = ap (λ ys. map (pair_of ys) (incidents ys)) (sym (append-nil xs))
fold_pairs_from (en ∷ ens) xs =
    ap (fold_pairs ens) (
      add_to_pairs (incidents xs) xs en (once-incidents xs) (named_or_blank en.key xs)
      ∙ ap (map (pair_of (xs ++ en ∷ []))) (sym (incidents_last xs en)))
    ∙ fold_pairs_from ens (xs ++ en ∷ [])
    ∙ ap (λ ys. map (pair_of ys) (incidents ys)) (append_assoc xs (en ∷ []) ens)

-- The pairs are those of the incidents that the entries name, each with its first raise and its last
-- recovery.
pub fold_pairs-incidents :
    (ens : List SummaryEntry) → fold_pairs ens [] ≡ map (pair_of ens) (incidents ens)
unfolding incidents
fold_pairs-incidents ens = fold_pairs_from ens []

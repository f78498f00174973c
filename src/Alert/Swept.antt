-- ===== src/Alert/Swept.antt =====
-- Deletions from the maps and tables of the alert engine (internal/alert/engine.go,
-- internal/storage/alerts.go), and membership in the lists that the sweep looks into.
use hoptrail.Common.{
  ℕ, ◌≡◌, ◌≢◌, ◌↔◌, ◌⊎◌, refl, sym, ap, ◌∙◌, inl, inr, Bool, true, false, not, Option, none, List,
  [], ◌∷◌, arith, Bool-cases, if◌then◌else◌,
}
use hoptrail.Common.Text.{Text, text_eq, text_eq_iff}
use hoptrail.Alert.Store.{Key, same_key, AlertState, find_state, drop_state}
use hoptrail.Alert.Engine.{lookup_raised, drop_raised}
use hoptrail.Alert.Keys.{same_key_iff}
use hoptrail.Alert.Tick.{exists_in}

pub find_state-drop_state :
    (k j : Key) (sts : List AlertState)
    → find_state k (drop_state j sts) ≡ (if same_key j k then none else find_state k sts)
unfolding find_state drop_state
find_state-drop_state k j [] = ground arith
find_state-drop_state k j (st ∷ sts) = elim (Bool-cases (same_key st.key j)) [
  | inl s ↦ rw (s, (same_key_iff st.key j).0 s) (find_state-drop_state k j sts ∙ ground arith)
  | inr s ↦ rw s (elim (Bool-cases (same_key j k)) [
    | inl q ↦
        let r : same_key st.key k ≡ false =
          sym (ap (same_key st.key) ((same_key_iff j k).0 q)) ∙ s in
        ground (arith, find_state-drop_state k j sts, r)
    | inr q ↦ ground (arith, find_state-drop_state k j sts)
  ])
]

pub lookup_raised-drop_raised :
    (k j : Key) (m : List (Key × ℕ))
    → lookup_raised k (drop_raised j m) ≡ (if same_key j k then none else lookup_raised k m)
unfolding lookup_raised drop_raised
lookup_raised-drop_raised k j [] = ground arith
lookup_raised-drop_raised k j ((i, t) ∷ m) = elim (Bool-cases (same_key i j)) [
  | inl s ↦ rw (s, (same_key_iff i j).0 s) (lookup_raised-drop_raised k j m ∙ ground arith)
  | inr s ↦ rw s (elim (Bool-cases (same_key j k)) [
    | inl q ↦
        let r : same_key i k ≡ false = sym (ap (same_key i) ((same_key_iff j k).0 q)) ∙ s in
        ground (arith, lookup_raised-drop_raised k j m, r)
    | inr q ↦ ground (arith, lookup_raised-drop_raised k j m)
  ])
]

-- No entry of the map is of the subject.
unfoldable pub Absent {ℓ} : {A : Type ℓ} → Text → List (Text × A) → Type 0
Absent s [] = true ≡ true
Absent s ((j, a) ∷ m) = (j ≢ s) × Absent s m

-- Some row of the list is that of the incident.
unfoldable pub Listed : Key → List AlertState → Type 0
Listed k [] = true ≡ false
Listed k (st ∷ sts) = (st.key ≡ k) ⊎ Listed k sts

pub exists_in_iff {ℓ} :
    {A : Type ℓ} (s : Text) (m : List (Text × A)) → (not (exists_in s m) ≡ true) ↔ Absent s m
unfolding exists_in Absent
exists_in_iff s [] = ((λ h. refl), (λ h. refl))
exists_in_iff s ((j, a) ∷ m) = elim (Bool-cases (text_eq j s)) [
  | inl e ↦ rw e ((λ h. cc), (λ h. absurd (h.0 ((text_eq_iff j s).0 e))))
  | inr e ↦ rw e (
    (λ h. ((λ q. cc (e, (text_eq_iff j s).1 q)), (exists_in_iff s m).0 h)),
    (λ h. (exists_in_iff s m).1 h.1),
  )
]

-- What an equation by cases says of a lookup.
pub kept_or_gone {ℓ κ} :
    {A : Type ℓ} {P : Type κ} (b : Bool) (before after : Option A)
    → ((b ≡ true) ↔ P)
    → after ≡ (if b then none else before)
    → ((after ≡ none) ↔ ((before ≡ none) ⊎ P)) × ((after ≡ none) ⊎ (after ≡ before))
kept_or_gone true before after p e = (((λ h. inr (p.0 refl)), (λ h. e)), inl e)
kept_or_gone false before after p e =
    (((λ h. inl (sym e ∙ h)), λ h. elim h [ inl q ↦ e ∙ q | inr q ↦ absurd (cc (p.1 q)) ]), inr e)

-- ===== src/Alert/Keys.antt =====
-- The maps and tables of the alert engine (internal/alert/engine.go, internal/storage/alerts.go)
-- that an incident's key addresses.
use hoptrail.Common.{
  ℕ, ◌≡◌, ◌≢◌, ◌↔◌, refl, sym, ap, ◌∙◌, inl, inr, Bool, true, false, ◌&&◌, some, List, [], ◌∷◌,
  arith, Bool-cases,
}
use hoptrail.Common.Text.{text_eq_iff}
use hoptrail.Alert.Config.{EventType, probe_offline, target_loss, latency, derate, capacity}
use hoptrail.Alert.Store.{Key, same_event, same_key}
use hoptrail.Alert.Engine.{lookup_raised, set_raised}

same_event_refl : (a : EventType) → same_event a a ≡ true
same_event_refl probe_offline = refl
same_event_refl target_loss = refl
same_event_refl latency = refl
same_event_refl derate = refl
same_event_refl capacity = refl

same_event_sound : (a b : EventType) → same_event a b ≡ true → a ≡ b
same_event_sound a b h = grind arith

and_true : (a b : Bool) → (a && b) ≡ true → (a ≡ true) × (b ≡ true)
and_true a b h = ground arith

both_true : (a b : Bool) → a ≡ true → b ≡ true → (a && b) ≡ true
both_true a b p q = ground arith

same_fields : (a b : Key) → a.event ≡ b.event → a.subject ≡ b.subject → a ≡ b
same_fields a b p q = cc

pub same_key_iff : (a b : Key) → (same_key a b ≡ true) ↔ (a ≡ b)
unfolding same_key
same_key_iff a b = (
  λ h.
      same_fields a b (same_event_sound _ _ (and_true _ _ h).0)
        ((text_eq_iff _ _).0 (and_true _ _ h).1),
  λ h.
      ap (same_key a) (sym h)
      ∙ both_true _ _ (same_event_refl a.event) ((text_eq_iff a.subject a.subject).1 refl),
)

pub same_key_refl : (k : Key) → same_key k k ≡ true
same_key_refl k = (same_key_iff k k).1 refl

pub same_key_ne : (a b : Key) → a ≢ b → same_key a b ≡ false
same_key_ne a b h = elim (Bool-cases (same_key a b)) [
  | inl e ↦ absurd (h ((same_key_iff a b).0 e))
  | inr e ↦ e
]

pub lookup_raised-set_raised :
    (k : Key) (t : ℕ) (m : List (Key × ℕ)) → lookup_raised k (set_raised k t m) ≡ some t
unfolding lookup_raised set_raised
lookup_raised-set_raised k t [] = rw (same_key_refl k)
lookup_raised-set_raised k t ((j, u) ∷ m) = elim (Bool-cases (same_key j k)) [
  | inl e ↦ rw (e, same_key_refl k)
  | inr e ↦ rw (e, e, lookup_raised-set_raised k t m)
]

-- Setting one key's entry leaves the others.
pub lookup_raised-set_raised_ne :
    (k j : Key) (t : ℕ) (m : List (Key × ℕ))
    → same_key j k ≡ false
    → lookup_raised k (set_raised j t m) ≡ lookup_raised k m
unfolding lookup_raised set_raised
lookup_raised-set_raised_ne k j t [] h = rw h
lookup_raised-set_raised_ne k j t ((i, u) ∷ m) h = elim (Bool-cases (same_key i j)) [
  | inl e ↦ rw (e, h, (same_key_iff i j).0 e, h)
  | inr e ↦ rw (e, lookup_raised-set_raised_ne k j t m h)
]

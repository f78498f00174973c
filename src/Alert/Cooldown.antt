-- ===== src/Alert/Cooldown.antt =====
-- The cooldown of `raise` (internal/alert/engine.go) over a run of raises.
use hoptrail.Common.{
  ℕ, ◌+◌, ◌*◌, ◌≤◌, ◌<◌, ◌≡◌, inl, inr, true, false, Option, none, some, List, [], ◌∷◌, arith,
  Bool-cases,
}
use hoptrail.Common.Float.{Float}
use hoptrail.Common.Text.{Text}
use hoptrail.Alert.Config.{Config}
use hoptrail.Alert.Store.{active, Key, same_key, AlertState, Faults}
use hoptrail.Alert.Engine.{
  Engine, second, lookup_raised, set_raised, cooling, enqueue, gate, deliver, raise,
}
use hoptrail.Alert.Keys.{same_key_iff, lookup_raised-set_raised, lookup_raised-set_raised_ne}

-- One call of `raise`.
pub record Raise : Type 0 where
  pub now : ℕ
  pub faults : Faults
  pub row : AlertState
  pub key : Key
  pub msg : Text
  pub priority : Text

module _ (fl : Float) (minute_of_day : ℕ → ℕ) (cfg : Config fl) where
  abbrev pub raise_one : Engine → Raise → Engine × AlertState
  raise_one e r = raise fl minute_of_day cfg r.faults r.now e r.row r.key r.msg r.priority

  unfoldable pub raise_all : List Raise → Engine → Engine
  raise_all [] e = e
  raise_all (r ∷ rs) e = raise_all rs (raise_one e r).0

  abbrev pub cooldown : ℕ
  cooldown = cfg.cooldown_s * second

  -- A suppressed raise only marks the row active.
  suppressed :
      (e : Engine) (r : Raise)
      → cooling fl minute_of_day cfg r.faults r.now (lookup_raised r.key e.last_raised) ≡ true
      → raise_one e r ≡ (e, record r.row { state = active })
  unfolding raise
  suppressed e r h = rw h

  -- An attempted one records its time, whatever becomes of the delivery.
  attempted :
      (e : Engine) (r : Raise)
      → cooling fl minute_of_day cfg r.faults r.now (lookup_raised r.key e.last_raised) ≡ false
      → (raise_one e r).0.last_raised ≡ set_raised r.key r.now e.last_raised
  unfolding raise deliver gate enqueue
  attempted e r h = ground arith

  -- Every raise of the list comes before `t` plus the cooldown.
  unfoldable pub Before : ℕ → List Raise → Type 0
  Before t [] = t ≤ t
  Before t (r ∷ rs) = (r.now < t + cooldown) × Before t rs

  is_cooling :
      (f : Faults) (now t : ℕ) (o : Option ℕ)
      → o ≡ some t
      → now < t + cooldown
      → cooling fl minute_of_day cfg f now o ≡ true
  is_cooling f now t none h p = cc
  is_cooling f now t (some last) h p = ground arith

  raise_one-keeps :
      (e : Engine) (r : Raise) (k : Key) (t : ℕ)
      → r.now < t + cooldown
      → lookup_raised k e.last_raised ≡ some t
      → lookup_raised k (raise_one e r).0.last_raised ≡ some t
  raise_one-keeps e r k t p h =
      elim (Bool-cases
        (cooling fl minute_of_day cfg r.faults r.now (lookup_raised r.key e.last_raised))) [
          | inl q ↦ rw (suppressed e r q) h
          | inr q ↦ elim (Bool-cases (same_key r.key k)) [
            | inl s ↦
                let c =
                  is_cooling r.faults r.now t (lookup_raised r.key e.last_raised)
                    (rw ((same_key_iff r.key k).0 s) h) p in
                cc
            | inr s ↦
                rw (attempted e r q, lookup_raised-set_raised_ne k r.key r.now e.last_raised s) h
          ]
        ]

  raise_all-keeps :
      (rs : List Raise) (e : Engine) (k : Key) (t : ℕ)
      → Before t rs
      → lookup_raised k e.last_raised ≡ some t
      → lookup_raised k (raise_all rs e).last_raised ≡ some t
  unfolding raise_all Before
  raise_all-keeps [] e k t b h = h
  raise_all-keeps (r ∷ rs) e k t (p, b) h = raise_all-keeps rs _ k t b (raise_one-keeps e r k t p h)

  -- After a raise that its own cooldown does not suppress, and any raises of any incidents before the
  -- cooldown has passed since, a further raise of the same incident before then leaves the engine and
  -- its store as they are and only marks the row active, whichever calls of the store have failed.
  pub raise_all_cooled :
      (e : Engine) (r : Raise) (rs : List Raise) (again : Raise)
      → cooling fl minute_of_day cfg r.faults r.now (lookup_raised r.key e.last_raised) ≡ false
      → Before r.now rs
      → again.key ≡ r.key
      → again.now < r.now + cooldown
      → raise_one (raise_all rs (raise_one e r).0) again
        ≡ (raise_all rs (raise_one e r).0, record again.row { state = active })
  raise_all_cooled e r rs again h b s p = suppressed (raise_all rs (raise_one e r).0) again (
      is_cooling again.faults again.now r.now
        (lookup_raised again.key (raise_all rs (raise_one e r).0).last_raised)
        (rw (
          s,
          raise_all-keeps rs (raise_one e r).0 r.key r.now b
              (rw (attempted e r h) (lookup_raised-set_raised r.key r.now e.last_raised)),
        ))
        p)

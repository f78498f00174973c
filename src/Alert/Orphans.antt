-- ===== src/Alert/Orphans.antt =====
-- What the orphan sweep of a tick (internal/alert/engine.go) does to the table of incident rows.
use mathlib.Core.Path.{subst}
use hoptrail.Common.{
  ℕ, ◌≡◌, ◌↔◌, ◌⊎◌, refl, sym, ap, ◌∙◌, inl, inr, Bool, true, false, not, ◌&&◌, Option, none, some,
  some-inj, List, [], ◌∷◌, arith, Bool-cases, if◌then◌else◌,
}
use hoptrail.Common.Float.{Float}
use hoptrail.Common.Text.{Text}
use hoptrail.Alert.Config.{Config, EventType, probe_offline, target_loss, latency, derate, capacity}
use hoptrail.Alert.Store.{
  Key, same_key, AlertState, Faults, find_state, delete_alert_state, append_alert_history,
}
use hoptrail.Alert.Engine.{Engine, lookup_raised}
use hoptrail.Alert.Keys.{same_key_iff}
use hoptrail.Alert.Tick.{
  Format, Providers, Thresholds, exists_in, orphaned_in, orphaned, clear_orphan, sweep,
}
use hoptrail.Alert.Swept.{
  find_state-drop_state, lookup_raised-drop_raised, Absent, Listed, exists_in_iff, kept_or_gone,
}

module _ (fl : Float) (fmt : Format fl) (minute_of_day : ℕ → ℕ) (cfg : Config fl) (f : Faults)
    (now : ℕ) (prov : Providers) (probes : Option (List (Text × ℕ))) where
  -- What an incident concerns no longer exists: a probe that is not among the probes that the pass
  -- evaluated, or a target that is not among the given ones while its event is enabled.
  abbrev pub Gone : Key → Type 0
  Gone k =
      ((k.event ≡ probe_offline) × (m : List (Text × ℕ)) × (probes ≡ some m) × Absent k.subject m)
      ⊎ ((k.event ≡ target_loss)
          × (cfg.event_target_loss ≡ true)
          × (m : List (Text × Thresholds)) × (prov.targets ≡ some m)
          × Absent k.subject m)
      ⊎ ((k.event ≡ latency)
          × (cfg.event_latency ≡ true)
          × (m : List (Text × Thresholds)) × (prov.targets ≡ some m)
          × Absent k.subject m)

  gone_probe :
      (found : Option (List (Text × ℕ))) (s : Text)
      → (orphaned_in fl fmt minute_of_day cfg f now prov probe_offline found s ≡ true)
        ↔ ((m : List (Text × ℕ)) × (found ≡ some m) × Absent s m)
  gone_probe none s = ((λ h. cc), (λ (m, e, a). cc))
  gone_probe (some m) s = (
    (λ h. (m, refl, (exists_in_iff s m).0 h)),
    (λ (n, e, a). ap (λ x. not (exists_in s x)) (some-inj e) ∙ (exists_in_iff s n).1 a),
  )

  gone_target :
      (ts : Option (List (Text × Thresholds))) (on : Bool) (s : Text)
      → ((on
            && elim ts [ none ↦ false | some m ↦ true ]
            && not (exists_in s (elim ts [ none ↦ [] | some m ↦ m ])))
          ≡ true)
        ↔ ((on ≡ true) × (m : List (Text × Thresholds)) × (ts ≡ some m) × Absent s m)
  gone_target none true s = ((λ h. cc), (λ (o, m, e, a). cc))
  gone_target none false s = ((λ h. cc), (λ (o, m, e, a). cc))
  gone_target (some m) false s = ((λ h. cc), (λ (o, n, e, a). cc))
  gone_target (some m) true s = (
    (λ h. (refl, m, refl, (exists_in_iff s m).0 h)),
    (λ (o, n, e, a). ap (λ x. not (exists_in s x)) (some-inj e) ∙ (exists_in_iff s n).1 a),
  )

  orphaned_iff :
      (v : EventType) (s : Text)
      → (orphaned_in fl fmt minute_of_day cfg f now prov v probes s ≡ true)
        ↔ Gone (record { event = v; subject = s })
  orphaned_iff probe_offline s =
      let g = gone_probe probes s in
      (
        (λ h. let (m, e, a) = g.0 h in inl (refl, m, e, a)),
        λ h. elim h [
          | inl (q, m, e, a) ↦ g.1 (m, e, a)
          | inr x ↦ elim x [ inl y ↦ cc | inr y ↦ cc ]
        ],
      )
  orphaned_iff target_loss s =
      let g = gone_target prov.targets cfg.event_target_loss s in
      (
        (λ h. let (o, m, e, a) = g.0 h in inr (inl (refl, o, m, e, a))),
        λ h. elim h [
          | inl x ↦ cc
          | inr x ↦ elim x [ inl (q, o, m, e, a) ↦ g.1 (o, m, e, a) | inr y ↦ cc ]
        ],
      )
  orphaned_iff latency s =
      let g = gone_target prov.targets cfg.event_latency s in
      (
        (λ h. let (o, m, e, a) = g.0 h in inr (inr (refl, o, m, e, a))),
        λ h. elim h [
          | inl x ↦ cc
          | inr x ↦ elim x [ inl y ↦ cc | inr (q, o, m, e, a) ↦ g.1 (o, m, e, a) ]
        ],
      )
  orphaned_iff derate s =
      ((λ h. cc), (λ h. elim h [ inl x ↦ cc | inr x ↦ elim x [ inl y ↦ cc | inr y ↦ cc ] ]))
  orphaned_iff capacity s =
      ((λ h. cc), (λ h. elim h [ inl x ↦ cc | inr x ↦ elim x [ inl y ↦ cc | inr y ↦ cc ] ]))

  -- Whether the loop clears a row of the incident.
  abbrev has_orphan : Key → List AlertState → Bool
  has_orphan k [] = false
  has_orphan k (st ∷ sts) =
      let rest = has_orphan k sts in
      if orphaned fl fmt minute_of_day cfg f now prov probes st && same_key st.key k
      then true
      else rest

  has_orphan_iff :
      (k : Key) (rows : List AlertState) → (has_orphan k rows ≡ true) ↔ (Listed k rows × Gone k)
  unfolding Listed
  has_orphan_iff k [] = ((λ h. cc), (λ h. cc))
  has_orphan_iff k (st ∷ sts) =
      let r = has_orphan_iff k sts in
      elim (Bool-cases (same_key st.key k)) [
        | inl s ↦
            let e = (same_key_iff st.key k).0 s in
            let o = orphaned_iff st.key.event st.key.subject in
            elim (Bool-cases (orphaned fl fmt minute_of_day cfg f now prov probes st)) [
              | inl g ↦ rw (g, s) ((λ h. (inl e, subst Gone e (o.0 g))), (λ h. refl))
              | inr g ↦ rw g (
                (λ h. (inr (r.0 h).0, (r.0 h).1)),
                (λ h. absurd (cc (g, o.1 (subst Gone (sym e) h.1)))),
              )
            ]
        | inr s ↦
            let n : st.key ≡ k → false ≡ true = λ q. cc (s, (same_key_iff st.key k).1 q) in
            let drop : Listed k (st ∷ sts) × Gone k → has_orphan k sts ≡ true =
              λ h. elim h.0 [ inl q ↦ absurd (cc (n q)) | inr l ↦ r.1 (l, h.1) ] in
            let keep : has_orphan k sts ≡ true → Listed k (st ∷ sts) × Gone k =
              λ h. (inr (r.0 h).0, (r.0 h).1) in
            elim (Bool-cases (orphaned fl fmt minute_of_day cfg f now prov probes st)) [
              | inl g ↦ rw (g, s) (keep, drop)
              | inr g ↦ rw g (keep, drop)
            ]
      ]

  clear_orphan_states :
      (e : Engine) (st : AlertState) (k : Key)
      → f.state_delete ≡ false
      → find_state k (clear_orphan fl fmt minute_of_day cfg f now prov e st).db.states
        ≡ (if same_key st.key k then none else find_state k e.db.states)
  unfolding delete_alert_state append_alert_history
  clear_orphan_states e st k h = ground (arith, find_state-drop_state k st.key e.db.states)

  clear_orphan_raised :
      (e : Engine) (st : AlertState) (k : Key)
      → f.state_delete ≡ false
      → lookup_raised k (clear_orphan fl fmt minute_of_day cfg f now prov e st).last_raised
        ≡ (if same_key st.key k then none else lookup_raised k e.last_raised)
  unfolding delete_alert_state append_alert_history
  clear_orphan_raised e st k h = ground (arith, lookup_raised-drop_raised k st.key e.last_raised)

  after_sweep :
      {A : Type 0} (get : Key → Engine → Option A)
      → ((e : Engine) (st : AlertState) (k : Key)
          → get k (clear_orphan fl fmt minute_of_day cfg f now prov e st)
            ≡ (if same_key st.key k then none else get k e))
      → (rows : List AlertState) (e : Engine) (k : Key)
      → get k (sweep fl fmt minute_of_day cfg f now prov probes rows e)
        ≡ (if has_orphan k rows then none else get k e)
  unfolding sweep
  after_sweep get c [] e k = refl
  after_sweep get c (st ∷ sts) e k =
      elim (Bool-cases (orphaned fl fmt minute_of_day cfg f now prov probes st)) [
        | inl o ↦ rw o (
            after_sweep get c sts (clear_orphan fl fmt minute_of_day cfg f now prov e st) k
            ∙ ground (arith, c e st k))
        | inr o ↦ rw o (after_sweep get c sts e k)
      ]

  -- With working deletions, the sweep over the rows of a pass leaves an incident without a row in the
  -- table exactly if it had none, or if a row of the pass is of it and what it concerns is gone: a
  -- probe that is not among the probes of a pass that evaluated them, or a target that is not among
  -- the given targets while its event is enabled. It leaves an incident without a cooldown time
  -- exactly if it had no such time, or if a row of the pass is of it and what it concerns is gone. A
  -- row and a time that are left are as they were.
  pub sweep_lem :
      (rows : List AlertState) (e : Engine) (k : Key)
      → f.state_delete ≡ false
      → (d : Engine) × (sweep fl fmt minute_of_day cfg f now prov probes rows e ≡ d)
        × ((find_state k d.db.states ≡ none)
            ↔ ((find_state k e.db.states ≡ none) ⊎ (Listed k rows × Gone k)))
        × ((find_state k d.db.states ≡ none)
            ⊎ (find_state k d.db.states ≡ find_state k e.db.states))
        × ((lookup_raised k d.last_raised ≡ none)
            ↔ ((lookup_raised k e.last_raised ≡ none) ⊎ (Listed k rows × Gone k)))
        × ((lookup_raised k d.last_raised ≡ none)
            ⊎ (lookup_raised k d.last_raised ≡ lookup_raised k e.last_raised))
  sweep_lem rows e k h =
      let o = has_orphan_iff k rows in
      let (a, b) = kept_or_gone (has_orphan k rows) _ _ o (
        after_sweep (λ j x. find_state j x.db.states) (λ x st j. clear_orphan_states x st j h) rows
          e k) in
      let (c, d) = kept_or_gone (has_orphan k rows) _ _ o (
        after_sweep (λ j x. lookup_raised j x.last_raised) (λ x st j. clear_orphan_raised x st j h)
          rows e k) in
      (sweep fl fmt minute_of_day cfg f now prov probes rows e, refl, a, b, c, d)

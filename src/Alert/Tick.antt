-- ===== src/Alert/Tick.antt =====
-- internal/alert/engine.go: one evaluation pass (`Tick`), with the orphan sweep. The providers'
-- results are inputs; Go's random order over a map is the order of the list that stands for it.
use hoptrail.Common.{
  ℕ, ◌-◌, ◌*◌, ◌/◌, Bool, true, false, not, ◌&&◌, Option, none, some, List, [], ◌∷◌, ◌++◌, ltb, leb,
  if◌then◌else◌,
}
use hoptrail.Common.Int.{ℤ, pos, ltb_ℤ}
use hoptrail.Common.Float.{Float}
use hoptrail.Common.Text.{Text, codes, text_eq}
use hoptrail.Alert.Config.{Config, EventType, probe_offline, target_loss, latency, derate, capacity}
use hoptrail.Alert.Store.{
  Key, AlertState, cleared, Store, Faults, find_state, delete_alert_state, append_alert_history,
}
use hoptrail.Alert.Engine.{
  second, unix_milli, event_name, is_active, Engine, drop_raised, quiet, step,
}
use hoptrail.Alert.Summary.{flush_summary}

pub record Thresholds : Type 0 where
  pub warning_ms : Option ℤ
  pub critical_ms : Option ℤ

pub record TargetWindowStats : Type 0 where
  pub sent : ℕ
  pub received : ℕ
  pub avg_rtt_us : ℕ

pub record CapacityVerdict : Type 0 where
  pub valid : Bool
  pub tripped : Bool
  pub alert_msg : Text
  pub recover_msg : Text

-- A provider that may be nil, and that may fail.
pub data Call {ℓ} (A : Type ℓ) : Type ℓ where
  absent failed : Call A
  returned : A → Call A

pub record Providers : Type 0 where
  pub probes : Call (List (Text × ℕ))
  pub targets : Option (List (Text × Thresholds))
  pub derate_active : Call (Bool × Text)
  pub window_stats : Option (Text → Option TargetWindowStats)
  pub capacity_verdict : Bool → Call CapacityVerdict

-- How the standard library prints a time of day ("15:04:05"), a float ("%.0f"), a duration in
-- nanoseconds and an integer.
pub record Format (fl : Float) : Type 0 where
  pub clock : ℕ → Text
  pub percent : fl.F → Text
  pub duration : ℕ → Text
  pub decimal : ℤ → Text

abbrev pub probe_offline_after : ℕ
probe_offline_after = 180 * second

abbrev pub min_samples : ℕ
min_samples = 10

unfoldable pub exists_in {ℓ} : {A : Type ℓ} → Text → List (Text × A) → Bool
exists_in k [] = false
exists_in k ((j, a) ∷ m) = let rest = exists_in k m in if text_eq j k then true else rest

-- The engine and the rows that the map `stateOf` points to.
abbrev pub Pass : Type 0
Pass = Engine × List AlertState

module _ (fl : Float) (fmt : Format fl) (minute_of_day : ℕ → ℕ) (cfg : Config fl) (f : Faults)
    (now : ℕ) (prov : Providers) where
  abbrev pub sustain : ℕ
  sustain = cfg.sustain_s * second

  abbrev pub run_step : Pass → Key → Bool → ℕ → Text → Text → Text → Pass
  run_step p k condition hold alert_msg recover_msg priority =
      step fl minute_of_day cfg f now p.0 p.1 k condition hold alert_msg recover_msg priority

  unfoldable pub step_probes : List (Text × ℕ) → Pass → Pass
  step_probes [] p = p
  step_probes ((id, last_seen) ∷ m) p = step_probes m (
      run_step p (record { event = probe_offline; subject = id })
        (ltb probe_offline_after (now - last_seen)) 0
        (codes "probe " ++ id ++ codes " offline — last heartbeat " ++ fmt.clock last_seen)
        (codes "probe " ++ id ++ codes " recovered") (codes "high"))

  abbrev pub loss_pct_of : TargetWindowStats → fl.F
  loss_pct_of st =
      fl.div (fl.mul (fl.of_nat 100) (fl.of_nat (st.sent - st.received))) (fl.of_nat st.sent)

  abbrev pub step_loss : Text → TargetWindowStats → Pass → Pass
  step_loss target st p =
      if cfg.event_target_loss
      then run_step p (record { event = target_loss; subject = target })
          (not (fl.lt (loss_pct_of st) cfg.loss_pct)) sustain
          (target
            ++ codes " unreachable — "
            ++ fmt.percent (loss_pct_of st)
            ++ codes "% loss over the last "
            ++ fmt.duration sustain)
          (target ++ codes " reachable again") (codes "high")
      else p

  abbrev pub limit_of : Thresholds → Option ℤ
  limit_of thr =
      if text_eq cfg.latency_level (codes "warning") then thr.warning_ms else thr.critical_ms

  abbrev pub step_over : Option ℤ → Text → ℕ → Pass → Pass
  step_over none target avg_ms p = p
  step_over (some limit) target avg_ms p =
      run_step p (record { event = latency; subject = target }) (ltb_ℤ limit (pos avg_ms)) sustain
        (target
          ++ codes " latency "
          ++ fmt.decimal (pos avg_ms)
          ++ codes "ms — above the "
          ++ fmt.decimal limit
          ++ codes "ms "
          ++ cfg.latency_level
          ++ codes " line for "
          ++ fmt.duration sustain)
        (target ++ codes " latency back under " ++ fmt.decimal limit ++ codes "ms")
        (codes "default")

  abbrev pub step_latency : Text → Thresholds → TargetWindowStats → Pass → Pass
  step_latency target thr st p =
      if cfg.event_latency && ltb 0 st.received
      then step_over (limit_of thr) target (st.avg_rtt_us / 1000) p
      else p

  abbrev pub step_target : Text → Thresholds → TargetWindowStats → Pass → Pass
  step_target target thr st p =
      if leb min_samples st.sent then step_latency target thr st (step_loss target st p) else p

  -- The loop stops at the first failing read; the second result is false then.
  unfoldable pub step_targets :
      (Text → Option TargetWindowStats) → List (Text × Thresholds) → Pass → Pass × Bool
  step_targets stats [] p = (p, true)
  step_targets stats ((target, thr) ∷ m) p = elim (stats target) [
    | none ↦ (p, false)
    | some st ↦ step_targets stats m (step_target target thr st p)
  ]

  abbrev pub step_derate : Bool × Text → Pass → Pass
  step_derate (active, desc) p =
      run_step p (record { event = derate; subject = codes "bandwidth" }) active 0
        (codes "bandwidth derate: " ++ desc) (codes "bandwidth back at baseline") (codes "default")

  abbrev pub state_active : List AlertState → Key → Bool
  state_active state_of k = elim (find_state k state_of) [
    | none ↦ false
    | some st ↦ is_active st.state
  ]

  abbrev pub disk : Key
  disk = record { event = capacity; subject = codes "disk" }

  abbrev pub step_capacity : Call CapacityVerdict → Pass → Pass
  step_capacity (returned v) p =
      if v.valid then run_step p disk v.tripped 0 v.alert_msg v.recover_msg (codes "high") else p
  step_capacity failed p = p
  step_capacity absent p = p

  abbrev pub clear_orphan : Engine → AlertState → Engine
  clear_orphan e st =
      let db : Store =
        if is_active st.state
        then (append_alert_history f e.db record {
          ts = unix_milli now;
          key = st.key;
          kind = cleared;
          message =
              st.key.subject
              ++ codes " removed from monitoring — "
              ++ event_name st.key.event
              ++ codes " incident cleared";
        }).0
        else e.db in
      let q : Store × Bool = delete_alert_state f db st.key in
      if q.1
      then record e { db = q.0; last_raised = drop_raised st.key e.last_raised }
      else record e { db = q.0 }

  abbrev pub targets_of : List (Text × Thresholds)
  targets_of = elim prov.targets [ none ↦ [] | some m ↦ m ]

  abbrev pub targets_given : Bool
  targets_given = elim prov.targets [ none ↦ false | some m ↦ true ]

  -- `probes` is `none` when that section did not evaluate.
  abbrev pub orphaned_in : EventType → Option (List (Text × ℕ)) → Text → Bool
  orphaned_in probe_offline none subject = false
  orphaned_in probe_offline (some m) subject = not (exists_in subject m)
  orphaned_in target_loss probes subject =
      cfg.event_target_loss && targets_given && not (exists_in subject targets_of)
  orphaned_in latency probes subject =
      cfg.event_latency && targets_given && not (exists_in subject targets_of)
  orphaned_in derate probes subject = false
  orphaned_in capacity probes subject = false

  abbrev pub orphaned : Option (List (Text × ℕ)) → AlertState → Bool
  orphaned probes st = orphaned_in st.key.event probes st.key.subject

  unfoldable pub sweep : Option (List (Text × ℕ)) → List AlertState → Engine → Engine
  sweep probes [] e = e
  sweep probes (st ∷ sts) e = sweep probes sts (if orphaned probes st then clear_orphan e st else e)

  -- The sections after the targets, up to the end of the pass.
  abbrev pub finish : Option (List (Text × ℕ)) → Pass → Engine × Bool
  finish probes p =
      let capacity_step : Pass → Engine × Bool = λ q.
        let r : Pass =
          if cfg.event_capacity
          then step_capacity (prov.capacity_verdict (state_active q.1 disk)) q
          else q in
        (sweep probes r.1 r.0, true) in
      let given : Call (Bool × Text) = if cfg.event_derate then prov.derate_active else absent in
      elim given [
        | absent ↦ capacity_step p
        | failed ↦ (p.0, false)
        | returned d ↦ capacity_step (step_derate d p)
      ]

  abbrev pub after_probes : Option (List (Text × ℕ)) → Pass → Engine × Bool
  after_probes probes p = elim prov.window_stats [
    | none ↦ finish probes p
    | some stats ↦
        let q : Pass × Bool = step_targets stats targets_of p in
        if q.1 then finish probes q.0 else (q.0.0, false)
  ]

  abbrev pub evaluate : Pass → Engine × Bool
  evaluate p =
      let given : Call (List (Text × ℕ)) =
        if cfg.event_probe_offline then prov.probes else absent in
      elim given [
        | absent ↦ after_probes none p
        | failed ↦ (p.0, false)
        | returned m ↦ after_probes (some m) (step_probes m p)
      ]

  -- The second result is false where the pass returns an error; `readable` says whether the rows
  -- can be listed.
  unfoldable pub tick : Bool → Engine → Engine × Bool
  tick readable e =
      let e' : Engine =
        if quiet fl minute_of_day cfg f now
        then e
        else record e { db = (flush_summary fmt.clock fmt.decimal f now e.db).0 } in
      if not cfg.enabled
      then (e', true)
      else if not readable
      then (e', false)
      else evaluate (e', e'.db.states)

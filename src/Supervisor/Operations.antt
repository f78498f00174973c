-- ===== src/Supervisor/Operations.antt =====
-- cmd/hoptrail/supervisor.go: what the web server and the start of the daemon ask of the supervisor.
-- An operation ends in its error, or none. A write to the tables that fails is logged, no more.
use hoptrail.Common.{
  Bool, true, false, not, ◌||◌, Option, none, some, List, [], ◌∷◌, if◌then◌else◌, map,
}
use hoptrail.Common.Int.{ℤ, pos, ltb_ℤ, wrap64, scale, quotient}
use hoptrail.Common.Addr.{Addr}
use hoptrail.Common.Keyed.{find, change, erase, is_some}
use hoptrail.Common.Text.{Text, text_eq}
use hoptrail.Storage.ActiveTargets.{
  ActiveTarget, TargetTables, active_targets, add_active_target, remember_target,
  set_active_target_interval, set_active_target_thresholds, set_active_target_final_hop_only,
  remove_active_target,
}
use hoptrail.Supervisor.Resolve.{World, resolve_target}
use hoptrail.Supervisor.Pipelines.{
  ProbeConfig, Pipeline, Supervisor, SupervisorError, unresolved, not_monitored,
  interval_out_of_range, bad_thresholds, read_failed, min_probe_interval, max_probe_interval,
  name_of, out_of_range, add_pipeline, Rebuilt, unchanged, rebuilt, rebuild_failed,
  rebuild_pipeline,
}

-- Which statements fail.
pub record TargetFaults : Type 0 where
  pub read : Bool
  pub add : Bool
  pub remember : Bool
  pub set : Bool
  pub remove : Bool

abbrev pub add_recorded :
    World
    → TargetFaults
    → Text
    → Supervisor × Option SupervisorError
    → Supervisor × Option SupervisorError
add_recorded w f target (s, some err) = (s, some err)
add_recorded w f target (s, none) = (
  record s {
    tables =
        remember_target f.remember w.now target (add_active_target f.add w.now target s.tables);
  },
  none,
)

unfoldable pub add_target :
    ProbeConfig → World → TargetFaults → Supervisor → Text → Supervisor × Option SupervisorError
add_target c w f s target =
    add_recorded w f target (add_pipeline c w s target c.interval none none false)

abbrev pub clamped : ℤ → ℤ
clamped interval =
    if ltb_ℤ interval min_probe_interval
    then min_probe_interval
    else if ltb_ℤ max_probe_interval interval
    then max_probe_interval
    else interval

-- `time.Duration(ms) * time.Millisecond`, which wraps around.
abbrev pub duration_ms : ℤ → ℤ
duration_ms ms = wrap64 (scale 1_000_000 ms)

abbrev pub row_interval : ProbeConfig → Option ℤ → ℤ
row_interval c none = c.interval
row_interval c (some ms) = duration_ms ms

unfoldable pub hydrate_rows : ProbeConfig → World → List ActiveTarget → Supervisor → Supervisor
hydrate_rows c w [] s = s
hydrate_rows c w (r ∷ rs) s =
    hydrate_rows c w rs
      (add_pipeline c w s r.target (clamped (row_interval c r.interval_ms)) r.warning_ms
        r.critical_ms r.final_hop_only).0

abbrev pub hydrate_read :
    ProbeConfig → World → Bool → Supervisor → Supervisor × Option SupervisorError
hydrate_read c w true s = (s, some read_failed)
hydrate_read c w false s = (hydrate_rows c w (active_targets s.tables) s, none)

unfoldable pub hydrate :
    ProbeConfig → World → TargetFaults → Supervisor → Supervisor × Option SupervisorError
unfolding hydrate_rows active_targets
hydrate c w f s = hydrate_read c w f.read s

-- The write that follows a rebuild.
abbrev pub rebuild_recorded :
    (TargetTables → TargetTables) → Supervisor × Rebuilt → Supervisor × Option SupervisorError
rebuild_recorded write (s, rebuild_failed err) = (s, some err)
rebuild_recorded write (s, unchanged) = (s, none)
rebuild_recorded write (s, rebuilt) = (record s { tables = write s.tables }, none)

unfoldable pub set_interval :
    ProbeConfig → TargetFaults → Supervisor → Text → ℤ → Supervisor × Option SupervisorError
set_interval c f s target interval =
    if out_of_range interval
    then (s, some interval_out_of_range)
    else rebuild_recorded
        (set_active_target_interval f.set (some (quotient interval 1_000_000)) target)
        (rebuild_pipeline c s target none (some interval) none)

unfoldable pub set_final_hop_only :
    ProbeConfig → TargetFaults → Supervisor → Text → Bool → Supervisor × Option SupervisorError
set_final_hop_only c f s target final_hop_only =
    rebuild_recorded (set_active_target_final_hop_only f.set final_hop_only target)
      (rebuild_pipeline c s target none none (some final_hop_only))

abbrev pub not_positive : Option ℤ → Bool
not_positive none = false
not_positive (some ms) = not (ltb_ℤ (pos 0) ms)

abbrev pub not_ordered : Option ℤ → Option ℤ → Bool
not_ordered none critical_ms = false
not_ordered (some w) none = false
not_ordered (some w) (some c) = not (ltb_ℤ w c)

abbrev pub rethresholded : Option ℤ → Option ℤ → Pipeline → Pipeline
rethresholded warning_ms critical_ms p = record p {
  warning_ms = warning_ms;
  critical_ms = critical_ms;
}

unfoldable pub set_thresholds :
    TargetFaults → Supervisor → Text → Option ℤ → Option ℤ → Supervisor × Option SupervisorError
unfolding find change
set_thresholds f s target warning_ms critical_ms =
    if not_positive warning_ms || not_positive critical_ms || not_ordered warning_ms critical_ms
    then (s, some bad_thresholds)
    else if not (is_some (find name_of target s.pipelines))
    then (s, some not_monitored)
    else (
      record s {
        pipelines = change name_of (rethresholded warning_ms critical_ms) target s.pipelines;
        tables = set_active_target_thresholds f.set warning_ms critical_ms target s.tables;
      },
      none,
    )

unfoldable pub remove_target :
    TargetFaults → Supervisor → Text → Supervisor × Option SupervisorError
unfolding find erase
remove_target f s target =
    if not (is_some (find name_of target s.pipelines)) then (s, some not_monitored) else (
      record s {
        pipelines = erase name_of target s.pipelines;
        tables = remove_active_target f.remove target s.tables;
      },
      none,
    )

-- The loop of `Swap`; its errors are logged.
abbrev pub remove_other : TargetFaults → Text → Text → Supervisor → Supervisor
remove_other f id t s = if text_eq t id then s else (remove_target f s t).0

unfoldable pub remove_others : TargetFaults → Text → List Text → Supervisor → Supervisor
remove_others f id [] s = s
remove_others f id (t ∷ ts) s = remove_others f id ts (remove_other f id t s)

abbrev pub swap_added :
    TargetFaults
    → Text
    → List Text
    → Supervisor × Option SupervisorError
    → Supervisor × Option SupervisorError
swap_added f id existing (s, some err) = (s, some err)
swap_added f id existing (s, none) = (remove_others f id existing s, none)

abbrev pub swap_resolved :
    ProbeConfig
    → World
    → TargetFaults
    → Supervisor
    → Text
    → Option Addr
    → Supervisor × Option SupervisorError
swap_resolved c w f s id none = (s, some unresolved)
swap_resolved c w f s id (some addr) =
    swap_added f id (map name_of s.pipelines)
      (if is_some (find name_of id s.pipelines) then (s, none) else add_target c w f s id)

unfoldable pub swap :
    ProbeConfig → World → TargetFaults → Supervisor → Text → Supervisor × Option SupervisorError
unfolding find remove_others
swap c w f s target = swap_resolved c w f s target (resolve_target w target)

-- One tick of `runReresolve`, for the pipeline whose address was `current`.
abbrev pub reresolve_answer : ProbeConfig → Supervisor → Text → Option Addr → Supervisor
reresolve_answer c s target none = s
reresolve_answer c s target (some addr) = (rebuild_pipeline c s target (some addr) none none).0

unfoldable pub reresolve : ProbeConfig → World → Supervisor → Text → Supervisor
reresolve c w s target = reresolve_answer c s target (resolve_target w target)

unfoldable pub shutdown : Supervisor → Supervisor
shutdown s = record s { pipelines = [] }

abbrev pub pause_probing : Supervisor → Supervisor
pause_probing s = record s { probing_paused = true }

abbrev pub resume_probing : Supervisor → Supervisor
resume_probing s = record s { probing_paused = false }

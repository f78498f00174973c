-- ===== src/Supervisor/Runs.antt =====
-- Runs of the supervisor (cmd/hoptrail/supervisor.go): the requests that reach it, each with what the
-- network and the tables answer, and restarts of the daemon.
use hoptrail.Common.{Bool, false, Option, none, some, List, [], ◌∷◌}
use hoptrail.Common.Int.{ℤ}
use hoptrail.Common.Text.{Text}
use hoptrail.Storage.ActiveTargets.{TargetTables}
use hoptrail.Supervisor.Resolve.{World}
use hoptrail.Supervisor.Pipelines.{ProbeConfig, Supervisor}
use hoptrail.Supervisor.Operations.{
  TargetFaults, add_target, hydrate, set_interval, set_final_hop_only, set_thresholds,
  remove_target, swap, reresolve, shutdown,
}

pub data Request : Type 0 where
  adding removing swapping reresolving : Text → Request
  setting_interval : Text → ℤ → Request
  setting_thresholds : Text → Option ℤ → Option ℤ → Request
  setting_final_hop_only : Text → Bool → Request

abbrev pub new_supervisor : TargetTables → Supervisor
new_supervisor t = record { pipelines = []; tables = t; probing_paused = false }

abbrev pub first_supervisor : Supervisor
first_supervisor = new_supervisor (record { active = []; history = [] })

abbrev pub request : ProbeConfig → World → TargetFaults → Request → Supervisor → Supervisor
request c w f (adding k) s = (add_target c w f s k).0
request c w f (removing k) s = (remove_target f s k).0
request c w f (swapping k) s = (swap c w f s k).0
request c w f (reresolving k) s = reresolve c w s k
request c w f (setting_interval k interval) s = (set_interval c f s k interval).0
request c w f (setting_thresholds k warning_ms critical_ms) s =
    (set_thresholds f s k warning_ms critical_ms).0
request c w f (setting_final_hop_only k b) s = (set_final_hop_only c f s k b).0

-- The daemon stops and comes up again.
unfoldable pub restart : ProbeConfig → World → TargetFaults → Supervisor → Supervisor
unfolding shutdown
restart c w f s = (hydrate c w f (new_supervisor (shutdown s).tables)).0

-- None is a restart.
abbrev pub event : ProbeConfig → World × TargetFaults × Option Request → Supervisor → Supervisor
event c (w, f, none) s = restart c w f s
event c (w, f, some r) s = request c w f r s

unfoldable pub run_all :
    ProbeConfig → List (World × TargetFaults × Option Request) → Supervisor → Supervisor
run_all c [] s = s
run_all c (e ∷ es) s = run_all c es (event c e s)

-- ===== src/Tests/Supervisor.antt =====
-- Tests and witnesses for cmd/hoptrail/supervisor.go and its endpoints.
use hoptrail.Common.{List, Option, ◌≡◌, refl, true, false, none, some, [], ◌∷◌, All, ◌⊎◌}
use hoptrail.Common.Int.{pos}
use hoptrail.Common.Keyed.{find, put, change}
use hoptrail.Common.Text.{codes, text_eq}
use hoptrail.Alert.Store.{Faults, Store}
use hoptrail.Storage.ActiveTargets.{
  add_active_target, remember_target, set_active_target_interval, set_active_target_thresholds,
}
use hoptrail.Supervisor.Resolve.{World, v4, resolve_target, first_usable}
use hoptrail.Supervisor.Pipelines.{ProbeConfig, out_of_range, add_pipeline, rebuild_pipeline}
use hoptrail.Supervisor.Operations.{
  TargetFaults, add_target, duration_ms, set_interval, set_thresholds,
}
use hoptrail.Supervisor.Runs.{
  Request, adding, swapping, setting_interval, setting_thresholds, first_supervisor, restart,
  run_all,
}
use hoptrail.Supervisor.Soundness.{Sound}
use hoptrail.Supervisor.SoundRuns.{run_all-Sound}
use hoptrail.Supervisor.Mirror.{pipeline_settings}
use hoptrail.Supervisor.Mirroring.{working}
use hoptrail.Supervisor.KeptRuns.{requests}
use hoptrail.Supervisor.Restart.{Resolves, restart-requests}
use hoptrail.Server.Targets.{
  handle_targets_add, handle_target_post, handle_target_patch, handle_target_by_path, a_delete,
}
use hoptrail.Server.Refusals.{an_interval, patch_of, OkOrUnchanged, refused-unchanged}

abbrev config : ProbeConfig
config = record {
  interval = pos 1_000_000_000;
  route_change_threshold = pos 3;
  discovery_interval = pos 30_000_000_000;
  max_hops = 30;
  timeout = pos 1_000_000_000;
}

-- Every name has one address.
abbrev network : World
network = record { parse_addr = λ t. some (v4 134_744_072); lookup_host = λ t. none; now = 5 }

abbrev broken : TargetFaults
broken = record { read = false; add = true; remember = true; set = true; remove = true }

abbrev some_requests : List (World × Request)
some_requests =
    (network, adding (codes "dns.google"))
    ∷ (network, setting_interval (codes "dns.google") (pos 250_500_000))
    ∷ (network, setting_thresholds (codes "dns.google") (some (pos 20)) none)
    ∷ []

abbrev some_events : List (World × TargetFaults × Option Request)
some_events =
    (network, broken, some (adding (codes "dns.google")))
    ∷ (network, working, some (swapping (codes "example.org")))
    ∷ (network, working, none)
    ∷ []

run_all-Sound_example : Sound (run_all config some_events first_supervisor)
run_all-Sound_example = run_all-Sound config some_events first_supervisor (tt, tt)

all_resolve : All (Resolves network) (requests config some_requests first_supervisor).tables.active
unfolding requests resolve_target first_usable add_target add_pipeline set_interval set_thresholds
    rebuild_pipeline add_active_target remember_target set_active_target_interval
    set_active_target_thresholds find put change text_eq
all_resolve = (refl, tt)

restart-requests_example :
    pipeline_settings
      (restart config network working (requests config some_requests first_supervisor))
      (codes "dns.google")
    ≡ pipeline_settings (requests config some_requests first_supervisor) (codes "dns.google")
restart-requests_example =
    restart-requests config some_requests network refl all_resolve (codes "dns.google")

-- The target does come back, with its settings.
restarted :
    pipeline_settings (requests config some_requests first_supervisor) (codes "dns.google")
    ≡ some (pos 250, some (pos 20), none, false)
unfolding requests resolve_target first_usable add_target add_pipeline set_interval set_thresholds
    rebuild_pipeline add_active_target remember_target set_active_target_interval
    set_active_target_thresholds find put change text_eq
restarted = refl

abbrev fine : Faults
fine = record {
  history_write = false;
  summary_read = false;
  summary_write = false;
  summary_delete = false;
  enqueue = false;
  state_write = false;
  state_delete = false;
}

abbrev no_incidents : Store
no_incidents = record { states = []; history = []; queue = []; summary = [] }

-- An interval that is out of range.
refused-unchanged_example :
    OkOrUnchanged first_supervisor
      (handle_targets_add config network working first_supervisor (some (codes "dns.google")))
    × OkOrUnchanged first_supervisor
        (handle_target_post config network working first_supervisor (some (codes "dns.google")))
    × OkOrUnchanged first_supervisor (
        handle_target_patch config working first_supervisor
          (codes "dns.google")
          (some (patch_of (an_interval (pos 10)))))
    × (((handle_target_by_path config working false fine 7 first_supervisor no_incidents
            (codes "dns.google")
            a_delete).1
          ≡ 200)
        ⊎ ((handle_target_by_path config working false fine 7 first_supervisor no_incidents
              (codes "dns.google")
              a_delete).0
            ≡ (first_supervisor, no_incidents)))
refused-unchanged_example =
    refused-unchanged config network working false fine 7 first_supervisor no_incidents
      (some (codes "dns.google")) (codes "dns.google") (an_interval (pos 10))

-- The product of a large `interval_ms` and a million wraps around into the range.
wrapped : out_of_range (duration_ms (pos 18_446_744_073_910)) ≡ false
wrapped = refl

-- ===== src/Supervisor/Pipelines.antt =====
-- cmd/hoptrail/supervisor.go: how a pipeline comes up and is rebuilt. A pipeline is its settings; the
-- goroutines that it bundles are the components of internal/probe and the sink. A duration is an
-- int64 of nanoseconds.
use hoptrail.Common.{
  ℕ, ◌%◌, Bool, true, false, not, ◌&&◌, ◌||◌, Option, none, some, List, leb, if◌then◌else◌,
}
use hoptrail.Common.Int.{ℤ, pos, ltb_ℤ, same_ℤ}
use hoptrail.Common.Addr.{Addr, is_valid, same}
use hoptrail.Common.Keyed.{find, put, is_some}
use hoptrail.Common.Text.{Text}
use hoptrail.Probe.Path.{max_ttl}
use hoptrail.Storage.ActiveTargets.{TargetTables}
use hoptrail.Supervisor.Resolve.{World, resolve_target}

abbrev pub min_probe_interval : ℤ
min_probe_interval = pos 200_000_000

abbrev pub max_probe_interval : ℤ
max_probe_interval = pos 60_000_000_000

-- The part of the configuration that pipelines are built from; `max_hops` is an int as its bits.
pub record ProbeConfig : Type 0 where
  pub interval : ℤ
  pub route_change_threshold : ℤ
  pub discovery_interval : ℤ
  pub max_hops : ℕ
  pub timeout : ℤ

pub record Pipeline : Type 0 where
  pub target : Text
  pub addr : Addr
  pub interval : ℤ
  pub warning_ms : Option ℤ
  pub critical_ms : Option ℤ
  pub final_hop_only : Bool

pub record Supervisor : Type 0 where
  pub pipelines : List Pipeline
  pub tables : TargetTables
  pub probing_paused : Bool

abbrev pub name_of : Pipeline → Text
name_of p = p.target

pub data SupervisorError : Type 0 where
  unresolved not_monitored already_monitored : SupervisorError
  interval_out_of_range bad_thresholds build_failed read_failed : SupervisorError

-- What `NewEngine`, `NewDiscovery` and `NewPinger` (internal/probe) ask of the configuration.
abbrev pub is_buildable : ProbeConfig → Bool
is_buildable c =
    not (ltb_ℤ c.route_change_threshold (pos 1))
    && ltb_ℤ (pos 0) c.discovery_interval
    && leb 1 (c.max_hops % 256)
    && leb (c.max_hops % 256) max_ttl
    && ltb_ℤ (pos 0) c.timeout

abbrev pub build_pipeline : ProbeConfig → Text → Addr → ℤ → Bool → Option Pipeline
build_pipeline c target addr interval final_hop_only =
    if is_valid addr && is_buildable c && ltb_ℤ (pos 0) interval
    then some (record {
      target = target;
      addr = addr;
      interval = interval;
      warning_ms = none;
      critical_ms = none;
      final_hop_only = final_hop_only;
    })
    else none

abbrev pub out_of_range : ℤ → Bool
out_of_range interval = ltb_ℤ interval min_probe_interval || ltb_ℤ max_probe_interval interval

-- The pipeline goes into the map, with its thresholds.
abbrev pub installed :
    Supervisor → Option ℤ → Option ℤ → Option Pipeline → Supervisor × Option SupervisorError
installed s warning_ms critical_ms none = (s, some build_failed)
installed s warning_ms critical_ms (some p) = (
  record s {
    pipelines =
        put name_of (record p { warning_ms = warning_ms; critical_ms = critical_ms }) s.pipelines;
  },
  none,
)

abbrev pub add_resolved :
    ProbeConfig
    → Supervisor
    → Text
    → ℤ
    → Option ℤ
    → Option ℤ
    → Bool
    → Option Addr
    → Supervisor × Option SupervisorError
add_resolved c s target interval warning_ms critical_ms final_hop_only none = (s, some unresolved)
add_resolved c s target interval warning_ms critical_ms final_hop_only (some addr) =
    if out_of_range interval
    then (s, some interval_out_of_range)
    else if is_some (find name_of target s.pipelines)
    then (s, some already_monitored)
    else installed s warning_ms critical_ms (build_pipeline c target addr interval final_hop_only)

-- The second result is the error; none is success.
unfoldable pub add_pipeline :
    ProbeConfig
    → World
    → Supervisor
    → Text
    → ℤ
    → Option ℤ
    → Option ℤ
    → Bool
    → Supervisor × Option SupervisorError
unfolding resolve_target find put
add_pipeline c w s target interval warning_ms critical_ms final_hop_only =
    add_resolved c s target interval warning_ms critical_ms final_hop_only (resolve_target w target)

pub data Rebuilt : Type 0 where
  unchanged : Rebuilt
  rebuilt : Rebuilt
  rebuild_failed : SupervisorError → Rebuilt

abbrev pub given {ℓ} : {A : Type ℓ} → Option A → A → A
given none a = a
given (some b) a = b

abbrev pub same_bool : Bool → Bool → Bool
same_bool true b = b
same_bool false b = not b

abbrev pub swapped_in : Supervisor → Option ℤ → Option ℤ → Option Pipeline → Supervisor × Rebuilt
swapped_in s warning_ms critical_ms none = (s, rebuild_failed build_failed)
swapped_in s warning_ms critical_ms (some p) = (
  record s {
    pipelines =
        put name_of (record p { warning_ms = warning_ms; critical_ms = critical_ms }) s.pipelines;
  },
  rebuilt,
)

abbrev pub rebuild_found :
    ProbeConfig → Supervisor → Text → Addr → ℤ → Bool → Pipeline → Supervisor × Rebuilt
rebuild_found c s target addr interval final_hop_only old =
    if same addr old.addr
      && same_ℤ interval old.interval
      && same_bool final_hop_only old.final_hop_only
    then (s, unchanged)
    else swapped_in s old.warning_ms old.critical_ms
        (build_pipeline c target addr interval final_hop_only)

abbrev pub rebuild_option :
    ProbeConfig
    → Supervisor
    → Text
    → Option Addr
    → Option ℤ
    → Option Bool
    → Option Pipeline
    → Supervisor × Rebuilt
rebuild_option c s target addr interval final_hop_only none = (s, rebuild_failed not_monitored)
rebuild_option c s target addr interval final_hop_only (some old) =
    rebuild_found c s target (given addr old.addr) (given interval old.interval)
      (given final_hop_only old.final_hop_only) old

unfoldable pub rebuild_pipeline :
    ProbeConfig → Supervisor → Text → Option Addr → Option ℤ → Option Bool → Supervisor × Rebuilt
unfolding find put
rebuild_pipeline c s target addr interval final_hop_only =
    rebuild_option c s target addr interval final_hop_only (find name_of target s.pipelines)

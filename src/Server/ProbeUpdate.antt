-- ===== src/Server/ProbeUpdate.antt =====
-- internal/server/probeupdate.go: how an update that the central has commanded goes on with the
-- heartbeats and the status reports of its probe. Times are unix milliseconds. Issuing a command and
-- serving the downloaded binary are left out.
use hoptrail.Common.{
  ℕ, ◌-◌, ◌*◌, Bool, true, false, not, Option, none, some, List, [], ◌∷◌, ◌++◌, ltb, if◌then◌else◌,
}
use hoptrail.Common.Text.{Text, codes, text_eq, is_blank, trim_prefix}
use hoptrail.Release.{trim_space, before_dash}
use hoptrail.Server.Auth.{Central, HttpRequest, Admitted, turned_away, admitted, admit}
use hoptrail.Storage.ProbeUpdates.{
  UpdateState, pending, applying, applied, failed, ProbeUpdate, find_update, set_probe_update_state,
  increment_probe_update_deliveries,
}

abbrev pub apply_timeout : ℕ
apply_timeout = 5 * 60 * 1000

abbrev pub max_update_deliveries : ℕ
max_update_deliveries = 2

pub record Failure : Type 0 where
  pub ts : ℕ
  pub probe_id : Text
  pub message : Text

-- The table of updates and the failures that the alert history records.
pub record Updates : Type 0 where
  pub rows : List ProbeUpdate
  pub history : List Failure

pub record UpdateFaults : Type 0 where
  pub lookup : Bool
  pub set_state : Bool
  pub increment : Bool
  pub history_write : Bool

pub record UpdateCommand : Type 0 where
  pub version : Text
  pub sha256 : Text
  pub path : Text

unfoldable pub base_version : Text → Text
unfolding before_dash
base_version v = before_dash (trim_prefix (trim_space v) (codes "v"))

unfoldable pub update_binary_path : Text → Text → Text
update_binary_path version arch =
    codes "/api/ingest/update-binary?version=" ++ version ++ codes "&arch=" ++ arch

abbrev pub command_of : ProbeUpdate → UpdateCommand
command_of u = record {
  version = u.target_version;
  sha256 = u.sha256;
  path = update_binary_path u.target_version u.arch;
}

unfoldable pub fail_probe_update : UpdateFaults → Updates → Text → Text → ℕ → Updates
fail_probe_update f s k msg now =
    let p : List ProbeUpdate × Bool = set_probe_update_state f.set_state s.rows k failed msg now in
    if not p.1 then record s { rows = p.0 } else record {
      rows = p.0;
      history =
          if f.history_write
          then s.history
          else s.history
            ++ record { ts = now; probe_id = k; message = codes "probe update failed: " ++ msg }
              ∷ [];
    }

abbrev pub wedged : ProbeUpdate → Text
wedged u =
    codes "no heartbeat on v"
    ++ u.target_version
    ++ codes " within 5m0s of starting — likely rolled back or wedged; check the probe's journal"

abbrev pub too_old : Text
too_old =
    codes "probe never acknowledged the command — its version predates central-driven updates; "
    ++ codes "update it manually once (Probes → manual instructions)"

abbrev pub after_count :
    UpdateFaults
    → Updates
    → ProbeUpdate
    → Text
    → ℕ
    → List ProbeUpdate × Option ℕ
    → Updates × Option UpdateCommand
after_count f s u k now (rows, none) = (record s { rows = rows }, none)
after_count f s u k now (rows, some n) =
    if ltb max_update_deliveries n
    then (fail_probe_update f (record s { rows = rows }) k too_old now, none)
    else (record s { rows = rows }, some (command_of u))

-- The switch on the state of a row that has not reached its version.
abbrev pub drive :
    UpdateState → UpdateFaults → Updates → ProbeUpdate → Text → ℕ → Updates × Option UpdateCommand
drive applying f s u k now =
    if ltb apply_timeout (now - u.updated_at)
    then (fail_probe_update f s k (wedged u) now, none)
    else (s, some (command_of u))
drive pending f s u k now =
    after_count f s u k now (increment_probe_update_deliveries f.increment s.rows k now)
drive applied f s u k now = (s, none)
drive failed f s u k now = (s, none)

abbrev pub is_applied : UpdateState → Bool
is_applied applied = true
is_applied pending = false
is_applied applying = false
is_applied failed = false

abbrev pub update_for :
    UpdateFaults → Updates → Option ProbeUpdate → Text → Text → ℕ → Updates × Option UpdateCommand
update_for f s none k reported now = (s, none)
update_for f s (some u) k reported now =
    if is_applied u.state
    then (s, none)
    else if text_eq (base_version reported) u.target_version
    then (record s { rows = (set_probe_update_state f.set_state s.rows k applied [] now).0 }, none)
    else drive u.state f s u k now

-- The command that rides on the answer to a heartbeat, if any.
unfoldable pub heartbeat_update_for :
    UpdateFaults → Updates → Text → Text → ℕ → Updates × Option UpdateCommand
heartbeat_update_for f s k reported now =
    if f.lookup then (s, none) else update_for f s (find_update k s.rows) k reported now

pub data ReportedState : Type 0 where
  is_applying is_failed other_state : ReportedState

pub record StatusRequest : Type 0 where
  pub probe_id : Text
  pub state : ReportedState
  pub error : Text

-- The reply is the status of the answer.
abbrev pub take_status : UpdateFaults → Updates → ReportedState → Text → Text → ℕ → Updates × ℕ
take_status f s is_applying k error now =
    let p : List ProbeUpdate × Bool = set_probe_update_state f.set_state s.rows k applying [] now in
    (record s { rows = p.0 }, if p.1 then 200 else 409)
take_status f s is_failed k error now = (
  fail_probe_update f s k
      (if is_blank error then codes "probe reported failure without detail" else error) now,
  200,
)
take_status f s other_state k error now = (s, 400)

abbrev pub take_admitted : UpdateFaults → ℕ → Updates → Admitted StatusRequest → Updates × ℕ
take_admitted f now s (turned_away code) = (s, code)
take_admitted f now s (admitted req) = take_status f s req.state req.probe_id req.error now

unfoldable pub handle_ingest_update_status :
    UpdateFaults → Central → Updates → HttpRequest StatusRequest → Updates × ℕ
unfolding admit
handle_ingest_update_status f c s r = take_admitted f c.now s (admit (λ req. req.probe_id) c r)

-- ===== src/Server/Rollout.antt =====
-- The rollout of an update over many probes (internal/server/probeupdate.go and probetokens.go), as a
-- sequence of looks at the table.
use hoptrail.Common.{
  ℕ, ◌-◌, ◌*◌, Bool, true, false, not, ◌&&◌, Option, none, some, List, [], ◌∷◌, ◌++◌, ltb,
  if◌then◌else◌,
}
use hoptrail.Common.Text.{Text, codes}
use hoptrail.Release.{newer}
use hoptrail.Storage.Probes.{Probe}
use hoptrail.Storage.ProbeUpdates.{
  UpdateState, pending, applying, applied, failed, ProbeUpdate, find_update,
}
use hoptrail.Server.ProbeUpdate.{Updates, UpdateFaults, fail_probe_update}
use hoptrail.Server.Commands.{Commanding, command_update_for}

pub record RolloutState : Type 0 where
  pub running : Bool
  pub current : Text
  pub done : List Text
  pub failed : Option Text

-- One look of the rollout at the row of its current probe: what the table holds by then, whether the
-- lookup fails, whether the deadline has passed, and the clock.
pub record Poll : Type 0 where
  pub updates : Updates
  pub faults : UpdateFaults
  pub is_late : Bool
  pub now : ℕ

pub data Waited : Type 0 where
  waiting : Waited
  is_done : Updates → Waited
  is_stopped : Updates → Waited

abbrev pub gave_up : Text
gave_up = codes "rollout gave up waiting — probe never reached a terminal state"

abbrev pub poll_state : Text → Poll → Waited → UpdateState → Waited
poll_state k p later applied = is_done p.updates
poll_state k p later failed = is_stopped p.updates
poll_state k p later pending =
    if p.is_late then is_stopped (fail_probe_update p.faults p.updates k gave_up p.now) else later
poll_state k p later applying =
    if p.is_late then is_stopped (fail_probe_update p.faults p.updates k gave_up p.now) else later

abbrev pub poll_found : Text → Poll → Waited → Option ProbeUpdate → Waited
poll_found k p later none = later
poll_found k p later (some u) = poll_state k p later u.state

-- The inner loop; without a further poll the rollout is still waiting.
unfoldable pub wait_for : Text → List Poll → Waited
unfolding find_update fail_probe_update
wait_for k [] = waiting
wait_for k (p ∷ ps) =
    let later = wait_for k ps in
    if p.faults.lookup then later else poll_found k p later (find_update k p.updates.rows)

abbrev pub stopped_at : Text → RolloutState → RolloutState
stopped_at k r = record r { running = false; current = []; failed = some k }

-- The loop over the candidates, each with the answers to its command and its polls.
abbrev pub Candidate : Type 0
Candidate = Probe × Commanding × Updates × List Poll

abbrev pub after_wait : Text → RolloutState → (RolloutState → RolloutState) → Waited → RolloutState
after_wait k r next waiting = r
after_wait k r next (is_done u) = next (record r { done = r.done ++ k ∷ [] })
after_wait k r next (is_stopped u) = stopped_at k r

abbrev pub after_command :
    Text
    → RolloutState
    → (RolloutState → RolloutState)
    → List Poll
    → Updates × Option ℕ
    → RolloutState
after_command k r next polls (u, some code) = stopped_at k r
after_command k r next polls (u, none) = after_wait k r next (wait_for k polls)

unfoldable pub run_rollout : List Candidate → RolloutState → RolloutState
unfolding command_update_for wait_for
run_rollout [] r = record r { running = false; current = [] }
run_rollout ((p, w, u, polls) ∷ cs) r =
    let next : RolloutState → RolloutState = run_rollout cs in
    after_command p.probe_id (record r { current = p.probe_id }) next polls
      (command_update_for w u p)

-- `probeOfflineAfter` of handlers.go.
abbrev pub offline_after : ℕ
offline_after = 3 * 60 * 1000

-- The probes that `handleProbesUpdateAll` updates: outdated, online, not pinned, and known.
abbrev pub is_outdated : Text → Option Text → Bool
is_outdated central none = false
is_outdated central (some reported) = newer central reported

abbrev pub is_known : Option Text → Bool
is_known none = false
is_known (some arch) = true

abbrev pub is_candidate : Text → ℕ → Probe → Bool
is_candidate central now p =
    not p.pin
    && is_known p.arch
    && ltb (now - p.last_seen_at) offline_after
    && is_outdated central p.version

unfoldable pub outdated_probes : Text → ℕ → List Probe → List Probe
unfolding newer
outdated_probes central now [] = []
outdated_probes central now (p ∷ ps) =
    let rest = outdated_probes central now ps in
    if is_candidate central now p then p ∷ rest else rest

abbrev pub started : List Probe → RolloutState → RolloutState × ℕ
started [] r = (r, 409)
started (p ∷ ps) r = (record { running = true; current = []; done = []; failed = none }, 200)

abbrev pub start_listed : Text → ℕ → RolloutState → Option (List Probe) → RolloutState × ℕ
start_listed central now r none = (r, 500)
start_listed central now r (some probes) = started (outdated_probes central now probes) r

-- The POST; `probes` is none where the list fails.
unfoldable pub handle_probes_update_all_post :
    Text → ℕ → RolloutState → Option (List Probe) → RolloutState × ℕ
unfolding outdated_probes
handle_probes_update_all_post central now r probes =
    if r.running then (r, 409) else start_listed central now r probes

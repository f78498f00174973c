-- ===== src/Server/Beats.antt =====
-- internal/server/ingest.go: the heartbeat and the path endpoint of remote probes.
use hoptrail.Common.{
  ℕ, Bool, true, false, not, ◌||◌, ◌&&◌, Option, none, some, List, ltb, if◌then◌else◌,
}
use hoptrail.Common.Int.{ℤ}
use hoptrail.Common.Text.{Text, codes, text_eq, is_blank, trim_prefix}
use hoptrail.Storage.Tokens.{TokenTable, probe_token_bindings, touch_probe_token}
use hoptrail.Storage.Probes.{Tables, PathSnapshot, upsert_probe_heartbeat, upsert_path_snapshot}
use hoptrail.Server.Auth.{HttpRequest, Central, Admitted, turned_away, admitted, admit}
use hoptrail.Server.Ingest.{is_skewed}
use hoptrail.Server.ProbeUpdate.{Updates, UpdateFaults, UpdateCommand, heartbeat_update_for}

pub record HeartbeatRequest : Type 0 where
  pub probe_id : Text
  pub version : Text
  pub started_at : ℕ
  pub targets : List Text
  pub arch : Text

-- What the heartbeat endpoint works on.
pub record IngestState : Type 0 where
  pub tables : Tables
  pub tokens : TokenTable
  pub updates : Updates

pub record BeatFaults : Type 0 where
  pub bindings : Bool
  pub upsert : Bool
  pub touch : Bool
  pub update : UpdateFaults

pub data BeatReply : Type 0 where
  beat_status : ℕ → BeatReply
  beat : ℕ → List Text → Option UpdateCommand → BeatReply

-- The yaml tokens, the clock, the sorted targets of the supervisor, and the peer's address.
pub record BeatContext : Type 0 where
  pub agent_tokens : List Text
  pub now : ℕ
  pub targets : List Text
  pub remote_ip : Text

abbrev pub beat_answered :
    BeatContext → IngestState → Updates × Option UpdateCommand → IngestState × BeatReply
beat_answered c s (u, command) = (record s { updates = u }, beat c.now c.targets command)

abbrev pub beat_upserted :
    BeatFaults
    → BeatContext
    → IngestState
    → Text
    → HeartbeatRequest
    → Tables × Bool
    → IngestState × BeatReply
beat_upserted f c s token req (t, false) = (s, beat_status 500)
beat_upserted f c s token req (t, true) =
    beat_answered c
      (record s { tables = t; tokens = touch_probe_token f.touch s.tokens token c.now })
      (heartbeat_update_for f.update s.updates req.probe_id req.version c.now)

abbrev pub beat_admitted :
    BeatFaults
    → BeatContext
    → IngestState
    → Text
    → Admitted HeartbeatRequest
    → IngestState × BeatReply
beat_admitted f c s token (turned_away code) = (s, beat_status code)
beat_admitted f c s token (admitted req) = beat_upserted f c s token req (
    upsert_probe_heartbeat f.upsert s.tables req.probe_id req.version req.started_at c.now
      c.remote_ip req.arch)

abbrev pub central_of : Bool → List Text → ℕ → TokenTable → Central
central_of fails agent_tokens now tokens = record {
  bindings = probe_token_bindings fails tokens;
  agent_tokens = agent_tokens;
  now = now;
}

unfoldable pub handle_ingest_heartbeat :
    BeatFaults → BeatContext → IngestState → HttpRequest HeartbeatRequest → IngestState × BeatReply
unfolding admit upsert_probe_heartbeat touch_probe_token heartbeat_update_for probe_token_bindings
handle_ingest_heartbeat f c s r =
    beat_admitted f c s (trim_prefix r.authorization (codes "Bearer ")) (
      admit (λ (req : HeartbeatRequest). req.probe_id)
        (central_of f.bindings c.agent_tokens c.now s.tokens) r)

pub record PathRequest : Type 0 where
  pub probe_id : Text
  pub target : Text
  pub ts : ℕ
  pub hop_count : ℤ
  pub target_ttl : ℤ
  pub hops : Text

-- `json_array` is the length of the text as a JSON array, none where it is not one.
module _ (json_array : Text → Option ℕ) where
  abbrev pub bad_hops : Option ℕ → Bool
  bad_hops none = true
  bad_hops (some n) = ltb 64 n

  abbrev pub no_hops : Text → Bool
  no_hops hops = is_blank hops || text_eq hops (codes "null")

  abbrev pub stored_snapshot : PathRequest → PathSnapshot
  stored_snapshot req = record {
    probe_id = req.probe_id;
    target = req.target;
    ts = req.ts;
    hop_count = req.hop_count;
    target_ttl = req.target_ttl;
    hops_json = if no_hops req.hops then codes "[]" else req.hops;
  }

  abbrev pub path_status : Tables × Bool → Tables × ℕ
  path_status (t, true) = (t, 200)
  path_status (t, false) = (t, 500)

  abbrev pub path_admitted : Bool → ℕ → Tables → Admitted PathRequest → Tables × ℕ
  path_admitted fails now t (turned_away code) = (t, code)
  path_admitted fails now t (admitted req) =
      if is_blank req.target || is_skewed req.ts now
      then (t, 400)
      else if not (no_hops req.hops) && bad_hops (json_array req.hops)
      then (t, 400)
      else path_status (upsert_path_snapshot fails t (stored_snapshot req))

  unfoldable pub handle_ingest_path : Bool → Central → Tables → HttpRequest PathRequest → Tables × ℕ
  unfolding admit is_skewed upsert_path_snapshot
  handle_ingest_path fails c t r =
      path_admitted fails c.now t (admit (λ (req : PathRequest). req.probe_id) c r)

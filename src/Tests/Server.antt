-- ===== src/Tests/Server.antt =====
-- Tests and witnesses for internal/server, the endpoints of remote probes.
use hoptrail.Common.{
  none, List, ◌≡◌, ◌↔◌, ◌≤◌, ◌+◌, ◌^◌, refl, true, false, some, [], ◌∷◌, ◌||◌, arith,
}
use hoptrail.Common.Int.{pos}
use hoptrail.Common.Text.{has_prefix, has_suffix, codes, text_eq}
use hoptrail.Storage.ProbeUpdates.{ProbeUpdate, pending, find_update}
use hoptrail.Storage.Probes.{IngestFaults, no_rows}
use hoptrail.Storage.Tokens.{TokenTable}
use hoptrail.Server.Auth.{Central}
use hoptrail.Server.Ingest.{SamplesRequest, is_skewed}
use hoptrail.Server.Skew.{is_skewed_iff}
use hoptrail.Server.Once.{sample_rows, change_rows}
use hoptrail.Server.Runs.{Post, post_all, first_rows, post_all_lem}
use hoptrail.Server.ProbeUpdate.{Updates, is_applying, is_applied}
use hoptrail.Server.Settling.{reports, has_late, end_of, update_settles}
use hoptrail.Server.UpdateEvents.{ProbeMessage, heartbeat, report, take_all, Until}
use hoptrail.Server.UpdateRows.{working, Beat, beat_all}
use hoptrail.Server.Guard.{
  Net, Guarded, mutating, cross_origin_guard, answered, passes, host_allowed, trim_dot, has_dot,
  is_listed,
}
use hoptrail.Server.Rollout.{Poll, wait_for, waiting}
use hoptrail.Tests.Whole.{whole}

is_skewed_iff_example :
    (is_skewed (2 ^ 63) 1_700_000_000_000 ≡ false)
    ↔ ((1_700_000_000_000 ≤ 2 ^ 63 + 86_400_000) × (2 ^ 63 ≤ 1_700_000_000_000 + 86_400_000))
is_skewed_iff_example =
    is_skewed_iff (2 ^ 63) 1_700_000_000_000 (omega arith) (omega arith) (omega arith)

abbrev no_faults : IngestFaults
no_faults = record {
  begin = false;
  log_insert = false;
  sample_insert = λ i. false;
  change_insert = λ i. false;
  commit = false;
}

abbrev home : Central
home = record { bindings = some []; agent_tokens = codes "secret" ∷ []; now = 1_700_000_000_000 }

abbrev one_sample : SamplesRequest whole
one_sample = record {
  probe_id = codes "attic";
  batch_id = codes "b1";
  samples =
      record {
        target = codes "dns.google";
        ttl = pos 3;
        ts = 1_700_000_000_000;
        ip = some (codes "8.8.8.8");
        rtt_ms = 12;
      }
      ∷ [];
  route_changes = [];
}

abbrev a_post : Post whole
a_post = record {
  faults = no_faults;
  central = home;
  request = record {
    is_post = true;
    authorization = codes "Bearer secret";
    body = some one_sample;
  };
}

abbrev a_failing_post : Post whole
a_failing_post = record a_post { faults = record no_faults { commit = true } }

abbrev three_posts : List (Post whole)
three_posts = a_failing_post ∷ a_post ∷ a_post ∷ []

post_all_lem_example :
    ((post_all whole (λ x. x) three_posts no_rows).0.samples
      ≡ first_rows whole
          (λ x. x)
          (sample_rows whole (λ x. x))
          []
          three_posts
          (post_all whole (λ x. x) three_posts no_rows).1)
    × ((post_all whole (λ x. x) three_posts no_rows).0.route_changes
        ≡ first_rows whole
            (λ x. x)
            (change_rows whole (λ x. x))
            []
            three_posts
            (post_all whole (λ x. x) three_posts no_rows).1)
post_all_lem_example = post_all_lem whole (λ x. x) three_posts no_rows

abbrev commanded : ProbeUpdate
commanded = record {
  probe_id = codes "attic";
  target_version = codes "0.7.0";
  arch = codes "arm64";
  sha256 = codes "ab";
  state = pending;
  error = [];
  deliveries = 0;
  requested_at = 0;
  updated_at = 0;
}

abbrev one_update : Updates
one_update = record { rows = commanded ∷ []; history = [] }

abbrev old_beats : List Beat
old_beats = (codes "v0.6.2", 70) ∷ (codes "v0.6.2", 80) ∷ (codes "v0.6.2", 400_000) ∷ []

-- A heartbeat takes the command, the probe reports that it applies it, and again on a retry.
abbrev acknowledged : List ProbeMessage
acknowledged =
    heartbeat (codes "v0.6.2") 10 ∷ report is_applying [] 20 ∷ report is_applying [] 60 ∷ []

acknowledged-Until : Until 60 acknowledged
unfolding Until
acknowledged-Until = (omega arith, (omega arith, (omega arith, omega arith)))

late_beat : has_late 60 old_beats ≡ true
unfolding has_late
late_beat = refl

commanded_found : find_update (codes "attic") one_update.rows ≡ some commanded
unfolding find_update text_eq
commanded_found = refl

update_settles_example :
    (v w : ProbeUpdate) × (find_update
        (codes "attic")
        (take_all (codes "attic") acknowledged one_update).rows
      ≡ some v)
    × (find_update
          (codes "attic")
          (beat_all
            (codes "attic")
            old_beats
            (take_all (codes "attic") acknowledged one_update)).rows
        ≡ some w)
    × (w.state ≡ end_of (is_applied v.state || reports (codes "0.7.0") old_beats))
update_settles_example =
    update_settles (codes "attic") acknowledged old_beats 60 one_update commanded commanded_found
      (omega arith) acknowledged-Until (omega arith) late_beat

abbrev no_tokens : TokenTable
no_tokens = record { rows = []; next_id = 1 }

-- A network in which every host comes without a port, and no name is an address.
abbrev plain_net : Net
plain_net = record {
  split_host_port = λ t. none;
  is_ip = λ t. false;
  to_lower = λ t. t;
  equal_fold = text_eq;
}

abbrev forged : Guarded
forged = record {
  method = mutating;
  path = codes "/api/targets";
  host = codes "attacker.example";
  origin = [];
  csrf = codes "1";
}

-- A registered name that is not listed is refused, a name of the local network passes.
rebinding : cross_origin_guard plain_net [] forged ≡ answered 403
unfolding cross_origin_guard host_allowed trim_dot has_dot is_listed has_prefix has_suffix text_eq
rebinding = refl

same_site :
    cross_origin_guard plain_net [] (record forged { host = codes "hoptrail.local" }) ≡ passes
unfolding cross_origin_guard host_allowed trim_dot has_dot is_listed has_prefix has_suffix text_eq
same_site = refl

abbrev cancelled_poll : Poll
cancelled_poll = record {
  updates = record { rows = []; history = [] };
  faults = working;
  is_late = true;
  now = 10_000_000;
}

-- Once the row is gone, the deadline does not end the wait.
cancelled_waits : wait_for (codes "attic") (cancelled_poll ∷ cancelled_poll ∷ []) ≡ waiting
unfolding wait_for find_update
cancelled_waits = refl

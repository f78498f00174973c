-- ===== src/Storage/Probes.antt =====
-- internal/storage/probes.go: the tables that a remote probe's posts reach. Times are unix
-- milliseconds as the 64 bits of an int64; a TTL is an int. The order of `samples` and
-- `route_changes` is the order of insertion.
use hoptrail.Common.{
  ℕ, suc, Bool, true, false, not, ◌&&◌, ◌||◌, Option, none, some, List, [], ◌∷◌, ◌++◌, ltb,
  if◌then◌else◌,
}
use hoptrail.Common.Int.{ℤ}
use hoptrail.Common.Text.{Text, text_eq, is_blank}

pub record IngestSample : Type 0 where
  pub target : Text
  pub ttl : ℤ
  pub ts : ℕ
  pub ip : Option Text
  pub rtt_us : ℕ

pub record IngestRouteChange : Type 0 where
  pub target : Text
  pub ttl : ℤ
  pub ts : ℕ
  pub old_ip : Option Text
  pub new_ip : Text

pub record LogRow : Type 0 where
  pub batch_id : Text
  pub probe_id : Text
  pub received_at : ℕ

pub record Probe : Type 0 where
  pub probe_id : Text
  pub version : Option Text
  pub started_at : Option ℕ
  pub last_seen_at : ℕ
  pub label : Option Text
  pub last_ip : Option Text
  pub arch : Option Text
  pub pin : Bool

pub record PathSnapshot : Type 0 where
  pub probe_id : Text
  pub target : Text
  pub ts : ℕ
  pub hop_count : ℤ
  pub target_ttl : ℤ
  pub hops_json : Text

pub record Tables : Type 0 where
  pub ingest_log : List LogRow
  pub samples : List (Text × IngestSample)
  pub route_changes : List (Text × IngestRouteChange)
  pub probes : List Probe
  pub path_snapshots : List PathSnapshot

abbrev pub no_rows : Tables
no_rows = record {
  ingest_log = [];
  samples = [];
  route_changes = [];
  probes = [];
  path_snapshots = [];
}

-- Which statements fail; an insertion by its place in the batch.
pub record IngestFaults : Type 0 where
  pub begin : Bool
  pub log_insert : Bool
  pub sample_insert : ℕ → Bool
  pub change_insert : ℕ → Bool
  pub commit : Bool

unfoldable pub is_logged : Text → List LogRow → Bool
is_logged k [] = false
is_logged k (r ∷ rs) = let rest = is_logged k rs in if text_eq r.batch_id k then true else rest

-- The loop over the insertions: whether all of them go through.
unfoldable pub inserts_all {ℓ} : {A : Type ℓ} → (ℕ → Bool) → ℕ → List A → Bool
inserts_all fails i [] = true
inserts_all fails i (x ∷ xs) =
    let rest = inserts_all fails (suc i) xs in if fails i then false else rest

-- The rows of a batch, each with its probe.
unfoldable pub tagged {ℓ} : {A : Type ℓ} → Text → List A → List (Text × A)
tagged probe_id [] = []
tagged probe_id (x ∷ xs) = (probe_id, x) ∷ tagged probe_id xs

-- The error, or whether the batch was new.
pub data Ingested : Type 0 where
  refused : Ingested
  fresh duplicate : Ingested

-- The error of a failing statement rolls the transaction back.
unfoldable pub ingest_batch :
    IngestFaults
    → Tables
    → Text
    → Text
    → ℕ
    → List IngestSample
    → List IngestRouteChange
    → Tables × Ingested
ingest_batch f t probe_id batch_id received_at samples changes =
    if is_blank probe_id || is_blank batch_id
    then (t, refused)
    else if f.begin || f.log_insert
    then (t, refused)
    else if is_logged batch_id t.ingest_log
    then (t, duplicate)
    else if not (inserts_all f.sample_insert 0 samples)
    then (t, refused)
    else if not (inserts_all f.change_insert 0 changes) || f.commit
    then (t, refused)
    else (
      record t {
        ingest_log =
            t.ingest_log
            ++ record { batch_id = batch_id; probe_id = probe_id; received_at = received_at } ∷ [];
        samples = t.samples ++ tagged probe_id samples;
        route_changes = t.route_changes ++ tagged probe_id changes;
      },
      fresh,
    )

-- The second result is false on an error, and the third says whether the id was new.
unfoldable pub record_ingest_batch : Bool → Tables → Text → Text → ℕ → Tables × Bool × Bool
record_ingest_batch fails t batch_id probe_id received_at =
    if is_blank batch_id || fails
    then (t, false, false)
    else if is_logged batch_id t.ingest_log
    then (t, true, false)
    else (
      record t {
        ingest_log =
            t.ingest_log
            ++ record { batch_id = batch_id; probe_id = probe_id; received_at = received_at } ∷ [];
      },
      true,
      true,
    )

-- The rows of the log that are not older than the cutoff; the error changes nothing.
unfoldable pub recent_log : ℕ → List LogRow → List LogRow
recent_log cutoff [] = []
recent_log cutoff (r ∷ rs) =
    let rest = recent_log cutoff rs in if ltb r.received_at cutoff then rest else r ∷ rest

unfoldable pub delete_ingest_log_older_than : Bool → Tables → ℕ → Tables
delete_ingest_log_older_than fails t cutoff =
    if fails then t else record t { ingest_log = recent_log cutoff t.ingest_log }

-- `COALESCE(excluded.x, probes.x)`
abbrev pub coalesce {ℓ} : {A : Type ℓ} → Option A → Option A → Option A
coalesce (some a) o = some a
coalesce none o = o

abbrev pub null_if_blank : Text → Option Text
null_if_blank s = if is_blank s then none else some s

-- The label and the pin of a row that is there stay.
unfoldable pub put_probe : Probe → List Probe → List Probe
put_probe p [] = p ∷ []
put_probe p (q ∷ qs) =
    let rest = put_probe p qs in
    if text_eq q.probe_id p.probe_id
    then record p {
      last_ip = coalesce p.last_ip q.last_ip;
      arch = coalesce p.arch q.arch;
      label = q.label;
      pin = q.pin;
    }
      ∷ qs
    else q ∷ rest

unfoldable pub upsert_probe_heartbeat :
    Bool → Tables → Text → Text → ℕ → ℕ → Text → Text → Tables × Bool
unfolding put_probe
upsert_probe_heartbeat fails t probe_id version started_at last_seen_at last_ip arch =
    if is_blank probe_id || fails then (t, false) else (
      record t {
        probes =
            put_probe
              (record {
                probe_id = probe_id;
                version = some version;
                started_at = some started_at;
                last_seen_at = last_seen_at;
                label = none;
                last_ip = null_if_blank last_ip;
                arch = null_if_blank arch;
                pin = false;
              })
              t.probes;
      },
      true,
    )

unfoldable pub pin_rows : Text → Bool → List Probe → List Probe
pin_rows k pin [] = []
pin_rows k pin (q ∷ qs) =
    (if text_eq q.probe_id k then record q { pin = pin } else q) ∷ pin_rows k pin qs

unfoldable pub is_registered : Text → List Probe → Bool
is_registered k [] = false
is_registered k (q ∷ qs) =
    let rest = is_registered k qs in if text_eq q.probe_id k then true else rest

-- An unknown probe is an error.
unfoldable pub set_probe_pin : Bool → Tables → Text → Bool → Tables × Bool
set_probe_pin fails t k pin =
    if fails
    then (t, false)
    else (record t { probes = pin_rows k pin t.probes }, is_registered k t.probes)

unfoldable pub put_snapshot : PathSnapshot → List PathSnapshot → List PathSnapshot
put_snapshot a [] = a ∷ []
put_snapshot a (b ∷ bs) =
    let rest = put_snapshot a bs in
    if text_eq b.probe_id a.probe_id && text_eq b.target a.target then a ∷ bs else b ∷ rest

unfoldable pub upsert_path_snapshot : Bool → Tables → PathSnapshot → Tables × Bool
unfolding put_snapshot
upsert_path_snapshot fails t a =
    if is_blank a.probe_id || is_blank a.target
    then (t, false)
    else if fails
    then (t, false)
    else (record t { path_snapshots = put_snapshot a t.path_snapshots }, true)

unfoldable pub find_snapshot : Text → Text → List PathSnapshot → Option PathSnapshot
find_snapshot k target [] = none
find_snapshot k target (b ∷ bs) =
    let rest = find_snapshot k target bs in
    if text_eq b.probe_id k && text_eq b.target target then some b else rest

unfoldable pub get_path_snapshot : Tables → Text → Text → Option PathSnapshot
unfolding find_snapshot
get_path_snapshot t k target = find_snapshot k target t.path_snapshots

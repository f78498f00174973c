-- ===== src/Storage/Sink.antt =====
-- internal/storage/sink.go: the queue in front of the database. The buffers, the flusher of `Run` and
-- the two tables are one state; a flush comes with what the probe engine writes while its transaction
-- runs. `show` is `netip.Addr.String`.
use hoptrail.Common.{
  not, ℕ, ◌+◌, ◌-◌, ◌/◌, Bool, true, false, ◌&&◌, ◌||◌, Option, none, some, List, [], ◌∷◌, ◌++◌,
  length, drop, map, ltb, leb, if◌then◌else◌,
}
use hoptrail.Common.Addr.{Addr, invalid, host}
use hoptrail.Common.Text.{Text, codes, is_blank}
use hoptrail.Probe.Events.{Sample, RouteChange}
use hoptrail.Storage.Probes.{inserts_all}

abbrev pub flush_size : ℕ
flush_size = 100

abbrev pub buffer_cap : ℕ
buffer_cap = 10_000

pub record SampleRow : Type 0 where
  pub target : Text
  pub ttl : ℕ
  pub ts : ℕ
  pub ip : Option Text
  pub rtt_us : ℕ

pub record ChangeRow : Type 0 where
  pub target : Text
  pub ttl : ℕ
  pub ts : ℕ
  pub old_ip : Option Text
  pub new_ip : Text

-- `flush_pending` is the signal in `flushCh`, `reported` the sum of the counts that `logDropped` has logged; `sample_rows` and
-- `change_rows` are the tables.
pub record BatchedSink : Type 0 where
  pub samples : List Sample
  pub changes : List RouteChange
  pub dropped : ℕ
  pub flush_pending : Bool
  pub reported : ℕ
  pub sample_rows : List SampleRow
  pub change_rows : List ChangeRow

abbrev pub new_batched_sink : BatchedSink
new_batched_sink = record {
  samples = [];
  changes = [];
  dropped = 0;
  flush_pending = false;
  reported = 0;
  sample_rows = [];
  change_rows = [];
}

-- The oldest sample goes when the buffer is full.
abbrev pub make_room : BatchedSink → BatchedSink
make_room s =
    if leb buffer_cap (length s.samples)
    then record s { samples = drop 1 s.samples; dropped = s.dropped + 1 }
    else s

abbrev pub queued : Sample → BatchedSink → BatchedSink
queued sample s = record s {
  samples = s.samples ++ sample ∷ [];
  flush_pending = leb flush_size (length (s.samples ++ sample ∷ [])) || s.flush_pending;
}

unfoldable pub write_sample : Sample → BatchedSink → BatchedSink
write_sample sample s = queued sample (make_room s)

unfoldable pub write_route_change : RouteChange → BatchedSink → BatchedSink
write_route_change rc s = record s { changes = s.changes ++ rc ∷ [] }

abbrev pub requeue_samples : List Sample → BatchedSink → BatchedSink
requeue_samples [] s = s
requeue_samples (x ∷ xs) s =
    let merged : List Sample = (x ∷ xs) ++ s.samples in
    if ltb buffer_cap (length merged)
    then record s {
      dropped = s.dropped + (length merged - buffer_cap);
      samples = drop (length merged - buffer_cap) merged;
    }
    else record s { samples = merged }

abbrev pub requeue_changes : List RouteChange → BatchedSink → BatchedSink
requeue_changes [] s = s
requeue_changes (x ∷ xs) s = record s { changes = (x ∷ xs) ++ s.changes }

unfoldable pub requeue : List Sample → List RouteChange → BatchedSink → BatchedSink
requeue samples changes s = requeue_changes changes (requeue_samples samples s)

-- Which statements fail; an insertion by its place in the batch.
pub record FlushFaults : Type 0 where
  pub begin : Bool
  pub prepare_sample : Bool
  pub sample_insert : ℕ → Bool
  pub prepare_change : Bool
  pub change_insert : ℕ → Bool
  pub commit : Bool

abbrev pub is_empty {ℓ} : {A : Type ℓ} → List A → Bool
is_empty [] = true
is_empty (x ∷ xs) = false

-- `insertSamples` and `insertRouteChanges`: an empty batch needs no statement.
abbrev pub inserts_samples : FlushFaults → List Sample → Bool
inserts_samples f samples =
    is_empty samples || (not f.prepare_sample && inserts_all f.sample_insert 0 samples)

abbrev pub inserts_changes : FlushFaults → List RouteChange → Bool
inserts_changes f changes =
    is_empty changes || (not f.prepare_change && inserts_all f.change_insert 0 changes)

-- What the engine writes.
pub data Write : Type 0 where
  a_sample : Sample → Write
  a_change : RouteChange → Write

unfoldable pub after_writes : List Write → BatchedSink → BatchedSink
after_writes [] s = s
after_writes (a_sample x ∷ ws) s = after_writes ws (write_sample x s)
after_writes (a_change x ∷ ws) s = after_writes ws (write_route_change x s)

-- The times in milliseconds, the round trip in microseconds, an address that is not valid as NULL.
module _ (show : Addr → Text) where
  abbrev pub nullable : Addr → Option Text
  nullable invalid = none
  nullable (host n) = some (show (host n))

  abbrev pub target_column : Text → Addr → Text
  target_column id target = if is_blank id then show target else id

  abbrev pub sample_row : Sample → SampleRow
  sample_row s = record {
    target = target_column (codes s.target_id) s.target;
    ttl = s.ttl;
    ts = s.ts / 1_000_000;
    ip = nullable s.ip;
    rtt_us = s.rtt / 1000;
  }

  abbrev pub change_row : RouteChange → ChangeRow
  change_row rc = record {
    target = target_column (codes rc.target_id) rc.target;
    ttl = rc.ttl;
    ts = rc.ts / 1_000_000;
    old_ip = nullable rc.old_ip;
    new_ip = show rc.new_ip;
  }

  abbrev pub stored : List Sample → List RouteChange → BatchedSink → BatchedSink
  stored samples changes s = record s {
    sample_rows = s.sample_rows ++ map sample_row samples;
    change_rows = s.change_rows ++ map change_row changes;
  }

  -- The transaction of a flush; the error of a statement rolls it back.
  abbrev pub transact : FlushFaults → List Sample → List RouteChange → BatchedSink → BatchedSink
  transact f samples changes s =
      if f.begin
      then requeue samples changes s
      else if not (inserts_samples f samples)
      then requeue samples changes s
      else if not (inserts_changes f changes) || f.commit
      then requeue samples changes s
      else stored samples changes s

  unfoldable pub flush : FlushFaults → List Write → BatchedSink → BatchedSink
  flush f meanwhile s =
      let t : BatchedSink = after_writes meanwhile (record s { samples = []; changes = [] }) in
      if is_empty s.samples && is_empty s.changes then t else transact f s.samples s.changes t

  -- The cases of the loop in `Run`, and the calls of the engine between them. The end of the context
  -- is a flush and `logDropped`.
  pub data SinkEvent : Type 0 where
    engine : List Write → SinkEvent
    on_tick : FlushFaults → List Write → SinkEvent
    signalled : FlushFaults → List Write → SinkEvent
    drop_tick : SinkEvent

  abbrev pub log_dropped : BatchedSink → BatchedSink
  log_dropped s = record s { dropped = 0; reported = s.reported + s.dropped }

  abbrev pub handled : SinkEvent → BatchedSink → BatchedSink
  handled (engine ws) s = after_writes ws s
  handled (on_tick f ws) s = flush f ws s
  handled (signalled f ws) s = flush f ws (record s { flush_pending = false })
  handled drop_tick s = log_dropped s

  unfoldable pub run : List SinkEvent → BatchedSink → BatchedSink
  run [] s = s
  run (e ∷ es) s = run es (handled e s)

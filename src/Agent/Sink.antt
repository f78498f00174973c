-- ===== src/Agent/Sink.antt =====
-- internal/agent/sink.go: the live flush (`flushOnce`) and the drain of the spill buffer. The clock,
-- the random batch id, the JSON encoder, the HTTP exchange and the table's failures are inputs.
use Prim.Native.String.{String}
use hoptrail.Common.{
  ℕ, zero, suc, ◌*◌, ◌/◌, Bool, true, false, ◌&&◌, Option, none, some, List, [], ◌∷◌, ◌++◌, map,
  length, ltb, leb, if◌then◌else◌,
}
use hoptrail.Common.Addr.{Addr, is_valid}
use hoptrail.Common.Float.{Float}
use hoptrail.Common.Text.{Text, codes, is_blank}
use hoptrail.Probe.Events.{Sample, RouteChange}
use hoptrail.Agent.Buffer.{Batch, Buffer, AddFaults, Added, add, after_add, remove_id}
use hoptrail.Agent.Client.{
  Outcome, outcome_ok, outcome_retry, outcome_drop, outcome_unauthorized, Response, classify,
}

pub record WireSample (fl : Float) : Type 0 where
  pub target : Text
  pub ttl : ℕ
  pub ts : ℕ
  pub ip : Option Text
  pub rtt_ms : fl.F

pub record WireRouteChange : Type 0 where
  pub target : Text
  pub ttl : ℕ
  pub ts : ℕ
  pub old_ip : Option Text
  pub new_ip : Text

pub record BatchPayload (fl : Float) : Type 0 where
  pub probe_id : Text
  pub batch_id : Text
  pub samples : List (WireSample fl)
  pub route_changes : List WireRouteChange

-- The queues of the sink, its buffer, and whether the fatal error was delivered.
pub record Sink : Type 0 where
  pub samples : List Sample
  pub changes : List RouteChange
  pub buffer : Buffer
  pub fatal : Bool

module _ (fl : Float) (show_addr : Addr → Text) where
  unfoldable pub target_id : String → Addr → Text
  target_id typed resolved = if is_blank (codes typed) then show_addr resolved else codes typed

  abbrev pub optional : Addr → Option Text
  optional ip = if is_valid ip then some (show_addr ip) else none

  unfoldable pub wire_sample : Sample → WireSample fl
  wire_sample s = record {
    target = target_id s.target_id s.target;
    ttl = s.ttl;
    ts = s.ts / 1_000_000;
    ip = optional s.ip;
    rtt_ms = fl.div (fl.of_nat (s.rtt / 1000)) (fl.of_nat 1000);
  }

  unfoldable pub wire_route_change : RouteChange → WireRouteChange
  wire_route_change rc = record {
    target = target_id rc.target_id rc.target;
    ttl = rc.ttl;
    ts = rc.ts / 1_000_000;
    old_ip = optional rc.old_ip;
    new_ip = show_addr rc.new_ip;
  }

  unfoldable pub build_payload : Text → Text → List Sample → List RouteChange → BatchPayload fl
  build_payload probe_id batch_id samples changes = record {
    probe_id = probe_id;
    batch_id = batch_id;
    samples = map wire_sample samples;
    route_changes = map wire_route_change changes;
  }

-- `WriteSample` also says whether it signals an early flush.
unfoldable pub write_sample : ℕ → Sink → Sample → Sink × Bool
write_sample flush_size s x =
    let samples = s.samples ++ x ∷ [] in
    (record s { samples = samples }, leb flush_size (length samples))

unfoldable pub write_route_change : Sink → RouteChange → Sink
write_route_change s rc = record s { changes = s.changes ++ rc ∷ [] }

-- What becomes of the batch that a flush takes out of the queues.
pub data Fate : Type 0 where
  no_batch discarded delivered rejected unauthorized : Fate
  spilled : Added → Fate

abbrev pub settle_batch : AddFaults → Sink → Batch → Outcome → Sink × Fate
settle_batch f s a outcome_ok = (s, delivered)
settle_batch f s a outcome_retry =
    let r : Added = add f s.buffer a in (record s { buffer = after_add s.buffer r }, spilled r)
settle_batch f s a outcome_drop = (s, rejected)
settle_batch f s a outcome_unauthorized = (record s { fatal = true }, unauthorized)

abbrev pub nothing_queued : Sink → Bool
nothing_queued s = leb (length s.samples) 0 && leb (length s.changes) 0

module _ (fl : Float) (show_addr : Addr → Text) (probe_id : Text)
    (marshal : BatchPayload fl → Option Text) (post : Text → Response) (f : AddFaults)
    (now : ℕ) where
  -- `new_id` is none when the random source fails; `now` is in unix milliseconds.
  unfoldable pub flush_once : Option Text → Sink → Sink × Fate
  flush_once new_id s =
      let emptied : Sink = record s { samples = []; changes = [] } in
      if nothing_queued s then (emptied, no_batch) else elim new_id [
        | none ↦ (emptied, discarded)
        | some k ↦ elim (marshal (build_payload fl show_addr probe_id k s.samples s.changes)) [
          | none ↦ (emptied, discarded)
          | some body ↦
              settle_batch f emptied (record { batch_id = k; created_at = now; payload = body })
                (classify (post body))
        ]
      ]

-- The end of a drain: the rows left, whether it was healthy, whether the fatal error was delivered,
-- and the payloads posted, each with its outcome.
pub record Drained : Type 0 where
  pub rows : List Batch
  pub healthy : Bool
  pub fatal : Bool
  pub posted : List (Text × Outcome)

-- The i-th turn of the drain: whether the read and the deletion fail, and the answer to the POST.
pub record Turns : Type 0 where
  pub read_fails : ℕ → Bool
  pub delete_fails : ℕ → Bool
  pub answer : ℕ → Text → Response

abbrev pub posting : Text → Outcome → Option Drained → Option Drained
posting body o none = none
posting body o (some d) = some (record d { posted = (body, o) ∷ d.posted })

abbrev pub stopped : List Batch → Bool → Bool → Option Drained
stopped rows healthy fatal =
    some (record { rows = rows; healthy = healthy; fatal = fatal; posted = [] })

-- What follows the outcome of one POST; `rest` is the drain of the rows without this one.
abbrev pub after_post : Bool → List Batch → Text → Outcome → Option Drained → Option Drained
after_post delete_failed rows body outcome_ok rest =
    posting body outcome_ok (if delete_failed then stopped rows false false else rest)
after_post delete_failed rows body outcome_retry rest =
    posting body outcome_retry (stopped rows false false)
after_post delete_failed rows body outcome_drop rest =
    posting body outcome_drop (if delete_failed then stopped rows false false else rest)
after_post delete_failed rows body outcome_unauthorized rest =
    posting body outcome_unauthorized (stopped rows false true)

-- `none` is the end of the fuel: each turn that goes on deletes a row.
unfoldable pub drain_buffer : ℕ → Turns → ℕ → List Batch → Option Drained
drain_buffer zero turns i rows = none
drain_buffer (suc n) turns i [] =
    if turns.read_fails i then stopped [] false false else stopped [] true false
drain_buffer (suc n) turns i (b ∷ bs) =
    let rest = drain_buffer n turns (suc i) (remove_id b.batch_id (b ∷ bs)) in
    if turns.read_fails i
    then stopped (b ∷ bs) false false
    else after_post (turns.delete_fails i) (b ∷ bs) b.payload (classify (turns.answer i b.payload))
        rest

abbrev pub flush_retry_base : ℕ
flush_retry_base = 5

abbrev pub flush_retry_max : ℕ
flush_retry_max = 60

-- The delay of `RunFlushLoop` after a drain, in seconds.
unfoldable pub next_delay : Bool → ℕ → ℕ
next_delay true delay = flush_retry_base
next_delay false delay = if ltb flush_retry_max (delay * 2) then flush_retry_max else delay * 2

-- The delay after the drains of the list, the first one first.
unfoldable pub delay_after : List Bool → ℕ → ℕ
delay_after [] delay = delay
delay_after (healthy ∷ hs) delay = delay_after hs (next_delay healthy delay)

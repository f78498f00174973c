-- ===== src/Tests/Storage.antt =====
-- Tests and witnesses for internal/storage/sink.go.
use hoptrail.Common.{List, [], ◌∷◌, true, false}
use hoptrail.Common.Addr.{Addr, host, invalid}
use hoptrail.Common.Text.{Text, codes}
use hoptrail.Probe.Events.{Sample, RouteChange}
use hoptrail.Storage.Sink.{
  FlushFaults, SinkEvent, engine, on_tick, drop_tick, a_sample, new_batched_sink, run, a_change,
}
use hoptrail.Storage.Conservation.{Conserved}
use hoptrail.Storage.SinkRuns.{offered_samples, offered_changes, run-Conserved}

abbrev show : Addr → Text
show a = codes "10.0.0.1"

abbrev reply : Sample
reply = record {
  target = host 1;
  target_id = "dns.google";
  ttl = 2;
  ts = 1_000_000;
  ip = invalid;
  rtt = 5000;
}

abbrev new_route : RouteChange
new_route = record {
  target = host 1;
  target_id = "dns.google";
  ttl = 2;
  ts = 2_000_000;
  old_ip = invalid;
  new_ip = host 7;
}

abbrev smooth : FlushFaults
smooth = record {
  begin = false;
  prepare_sample = false;
  sample_insert = λ i. false;
  prepare_change = false;
  change_insert = λ i. false;
  commit = false;
}

abbrev some_events : List (SinkEvent show)
some_events =
    engine (a_sample reply ∷ a_change new_route ∷ [])
    ∷ on_tick (record smooth { commit = true }) (a_sample reply ∷ [])
    ∷ on_tick smooth []
    ∷ drop_tick
    ∷ []

run-Conserved_example :
    Conserved show [] []
      (run show some_events new_batched_sink)
      (offered_samples show some_events)
      (offered_changes show some_events)
run-Conserved_example = run-Conserved show some_events

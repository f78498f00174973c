-- ===== src/Lib.antt =====
-- Hoptrail, a continuous traceroute with alerting (the Go code of internal/ and cmd/).
--
-- The program's parts and how they meet. A probe engine (internal/probe) sends ICMP probes to each
-- TTL of a path; its reducer goroutine owns the path's state, feeds each observation to a ring
-- buffer and to the route-change rule (internal/analysis), and writes samples and route changes to a
-- sink. On a remote probe that sink posts batches to the central daemon and spills them to a local
-- table when it cannot (internal/agent). On the central daemon a supervisor (cmd/hoptrail) keeps one
-- engine for each monitored target and mirrors the targets in the database, a batched sink
-- (internal/storage) writes what the engines observe, and the web server (internal/server) takes the
-- posts of remote probes, drives their updates and changes the targets. An alert engine
-- (internal/alert) ticks over what was stored, keeps a row of state for each incident and queues
-- notifications, a retention worker (internal/retention) deletes what is old, and a checker
-- (internal/release) looks for newer releases.
--
-- Which file models which part:
--   Common             shared names, lists over the native numbers, Go's int, float64, netip.Addr and
--                      strings
--   Analysis.RingBuffer  internal/analysis/ringbuf.go (Push, Newest, Oldest, NewestFirst, ...)
--   Analysis.Routing     internal/analysis/routing.go (DetectRouteChange, ModalIP)
--   Analysis.Loss        internal/analysis/loss.go (AttributedLoss)
--   Probe.Events         internal/probe/events.go
--   Probe.Path           internal/probe/path.go (PathState, ApplyProbeResult)
--   Probe.Path.Snapshot  internal/probe/path.go (Snapshot, Hop.snapshot)
--   Probe.Engine         internal/probe/engine.go (reducer, applyProbe)
--   Alert.Config       internal/alert/config.go (Config, parseHHMM)
--   Alert.Store        internal/storage/alerts.go (the alert tables)
--   Alert.Engine       internal/alert/engine.go (step, raise, deliver, inQuietWindow)
--   Alert.Tick         internal/alert/engine.go (Tick, clearOrphan)
--   Alert.Summary      internal/alert/engine.go (flushSummary)
--   Agent.Buffer       internal/agent/buffer.go
--   Agent.Client       internal/agent/client.go (the outcomes of PostJSON)
--   Agent.Sink         internal/agent/sink.go (flushOnce, drainBuffer, RunFlushLoop, buildPayload)
--   Storage.Probes     internal/storage/probes.go (the ingest log, heartbeats, path snapshots)
--   Storage.ProbeUpdates  internal/storage/probeupdates.go
--   Storage.Tokens     internal/storage/tokens.go
--   Storage.ActiveTargets  internal/storage/storage.go (the tables of targets)
--   Storage.Sink       internal/storage/sink.go (BatchedSink)
--   Server.Auth        internal/server/ingest.go (authAgent and the checks of every endpoint)
--   Server.Ingest      internal/server/ingest.go (handleIngestSamples, checkClockSkew)
--   Server.Beats       internal/server/ingest.go (handleIngestHeartbeat, handleIngestPath)
--   Server.ProbeUpdate internal/server/probeupdate.go (heartbeatUpdateFor, handleIngestUpdateStatus)
--   Server.Commands, Server.Rollout  internal/server/probeupdate.go and probetokens.go (commandUpdateFor,
--                      handleProbeUpdateOp, runRollout)
--   Server.Guard       internal/server/csrf.go (crossOriginGuard)
--   Server.Tokens      internal/server/probetokens.go (minting and revoking)
--   Server.Targets     internal/server/handlers.go (the endpoints of targets)
--   Server.Incidents   internal/server/alerts.go (clearSubjectAlertStates)
--   Supervisor.Resolve, Supervisor.Pipelines, Supervisor.Operations  cmd/hoptrail/supervisor.go
--   LogRing            internal/logring/logring.go (Append, Since)
--   Release            internal/release/release.go and checker.go
--   Retention          internal/retention/worker.go and internal/storage/retention.go
--   Tests              each property at a concrete input
-- The other files prove what their names say about the module above them.
--
-- Conventions. A record models a struct, a function that changes state returns the new state, and a
-- panic or an error is a value. Times and durations are numbers, or integers where the code tests their
-- sign; a timestamp from outside is its 64 bits; netip.Addr is the zero value or a
-- number, a Go string is the list of its code points, and float64 is the record `Float`, a parameter.
-- The failures of the database's statements, the answers of the network, the local wall clock and the
-- standard library's formatting of times and floats are inputs.
--
-- Fuel. Most loops are structural recursions. Three loops run on fuel, which their theorems show to
-- be enough: the eviction of the spill buffer and the drain delete a row in each turn that goes on,
-- and each full batch of the retention's deletion deletes at least one, so one more than the number
-- of rows is enough.
--
-- Not modelled: goroutines, channels and locks (their interleavings are the sequences of events that the
-- theorems quantify over), sockets and HTTP, the JSON encoding, SQL beyond the tables named above, and
-- the pages, settings, charts and self-update of the web server. A stored JSON value always parses.
pub mod Common
pub mod Analysis
pub mod Probe
pub mod Alert
pub mod Agent
pub mod Release
pub mod Retention
pub mod Storage
pub mod Supervisor
pub mod Server
pub mod LogRing
mod Tests

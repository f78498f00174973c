-- ===== src/Storage.antt =====
-- internal/storage: the tables that remote probes and the local pipelines write.
pub mod Probes
pub mod ProbeUpdates
pub mod ActiveTargets
pub mod Tokens
pub mod Sink
pub mod Conservation
pub mod SinkRuns

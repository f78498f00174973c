-- ===== src/Supervisor.antt =====
-- cmd/hoptrail/supervisor.go: the monitored targets.
pub mod Resolve
pub mod Pipelines
pub mod Operations
pub mod Runs
pub mod Soundness
pub mod SoundTables
pub mod SoundRuns
pub mod Mirror
pub mod Mirroring
pub mod MirrorRequests
pub mod MirrorAdd
pub mod Restart
pub mod KeptRuns

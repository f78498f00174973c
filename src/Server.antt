-- ===== src/Server.antt =====
-- internal/server: the endpoints of the central daemon.
pub mod Auth
pub mod Ingest
pub mod Once
pub mod Skew
pub mod Runs
pub mod ProbeUpdate
pub mod Settling
pub mod Tokens
pub mod Beats
pub mod Incidents
pub mod Targets
pub mod Refusals
pub mod Revoked
pub mod Commands
pub mod Guard
pub mod UpdateEvents
pub mod UpdateRows
pub mod Rollout

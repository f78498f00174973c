-- ===== src/Agent.antt =====
-- internal/agent: the remote probe's delivery of its measurements to the central daemon.
pub mod Buffer
pub mod Client
pub mod Sink
pub mod Table
pub mod Evict
pub mod Drain
pub mod Backoff

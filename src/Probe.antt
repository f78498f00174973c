-- ===== src/Probe.antt =====
-- internal/probe: the observations, the state of one path, and the reducer that owns it.
pub mod Events
pub mod Path
pub mod Engine

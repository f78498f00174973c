-- ===== src/Alert.antt =====
-- internal/alert: the evaluator's incident state machine and its gating pipeline.
pub mod Config
pub mod Store
pub mod Engine
pub mod Tick
pub mod Summary
pub mod Quiet
pub mod Keys
pub mod Orphans
pub mod RateLimit
pub mod Cooldown
pub mod History
pub mod Flush
pub mod Sorting
pub mod Swept
pub mod Incidents

-- ===== src/Analysis.antt =====
-- internal/analysis: the rules that turn raw probe observations into meaning.
pub mod RingBuffer
pub mod Routing
pub mod Loss

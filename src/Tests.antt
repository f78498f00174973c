-- ===== src/Tests.antt =====
-- Each property at a concrete input, and small runs of the definitions.
mod Whole
mod Analysis
mod Probe
mod Alert
mod Agent
mod Release
mod Retention
mod Server
mod Supervisor
mod Storage
mod LogRing

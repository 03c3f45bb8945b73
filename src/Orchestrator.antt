-- ===== src/Orchestrator.antt =====
-- The orchestrator: its manifest, the order in which it starts services, and their supervision.
pub mod Configuration
pub mod Startup
pub mod Supervision
pub mod Identity
pub mod Shutdown

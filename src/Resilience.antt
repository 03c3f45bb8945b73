-- ===== src/Resilience.antt =====
-- crates/framework/krab_core/src/resilience.rs: the circuit breaker and its rolling rate window.
pub mod Window
pub mod Breaker

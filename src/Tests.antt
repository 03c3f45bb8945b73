-- ===== src/Tests.antt =====
-- Runs of the models at fixed inputs, and each theorem with hypotheses at an input that meets them.
mod Auth
mod Breaker
mod Identity
mod Isr
mod Orchestrator
mod Signal
mod Supervision
mod Memory

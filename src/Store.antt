-- ===== src/Store.antt =====
-- crates/framework/krab_core/src/store.rs: the key-value store that replicas share.
pub mod Interface
pub mod Memory

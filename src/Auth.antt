-- ===== src/Auth.antt =====
-- crates/framework/krab_core/src/http_auth.rs: which requests a service answers. `Json` stands for
-- the JSON values of a token, which another library parses.
pub mod Paths
pub mod Claims
pub mod Policy
pub mod Among
pub mod Permits
pub mod Algorithms
pub mod Verify
pub mod Authorize
pub mod Provided
pub mod Verified
pub mod Authentic
pub mod Middleware
pub mod Guarded
pub mod Reached

-- ===== src/Api.antt =====
-- What the services of crates/accord-server share: errors (error.rs), the ids and texts that
-- requests carry, and authentication (util.rs).
pub mod Error
pub mod Request
pub mod Server
pub mod Action
pub mod Examples

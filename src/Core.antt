-- ===== src/Core.antt =====
-- The crate roder-core (crates/core): the types that the server and the browser share.
pub mod Actions
pub mod Conditions
pub mod Drain
pub mod Permissions
pub mod Row

-- ===== src/Identity.antt =====
-- crates/identity: users, roles, sessions and personal access tokens.
pub mod Roles
pub mod Users
pub mod Tokens
pub mod Sync
pub mod Disabled
mod Tests

-- ===== src/Storage.antt =====
-- crates/storage: the audit log, the clock and the id generator, and the coordination leases.
pub mod Env
pub mod Audit
pub mod Leases
pub mod Exclusion
mod Tests

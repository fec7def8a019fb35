-- ===== src/Catalog.antt =====
-- crates/catalog: the typed entities that are read from Git.
pub mod Refs
pub mod Entities
pub mod Repo
pub mod Stored
pub mod Reconcile
pub mod Observed
pub mod Removed
mod Tests

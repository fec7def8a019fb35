-- ===== src/Provision.antt =====
-- crates/provision: the resource rows, the workers that drive them, and their retries.
pub mod Repo
pub mod Queries
pub mod Claims
pub mod Worker
pub mod Retries
pub mod Retried
pub mod Manifest
pub mod ServiceCatalog
pub mod Offered
pub mod Connectors
pub mod Cascades
pub mod Cascaded
pub mod Suspended
pub mod Resumed
pub mod Enqueue
pub mod Requests
pub mod Permitted
pub mod Admission
pub mod Apply
pub mod Grants
pub mod Granted
pub mod Changes
pub mod Linked
pub mod TextSets
pub mod Secrecy
pub mod Applied
pub mod Single
pub mod Enqueued
pub mod Twins
pub mod Samples
mod Tests

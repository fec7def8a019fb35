-- ===== src/Workflow.antt =====
-- crates/workflow/src/lib.rs: request, approval, fulfilment.
pub mod State
pub mod Engine
pub mod Transitions
pub mod Lookup
pub mod Outcomes
pub mod Lifecycle
pub mod Trail
pub mod Listing
pub mod Race
pub mod Submission
mod Tests

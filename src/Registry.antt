-- ===== src/Registry.antt =====
-- crates/registry: promotion between tiers, its evidence and its review.
pub mod Tiers
pub mod Steps
pub mod Records
pub mod Promotion
pub mod Verdicts
pub mod ReviewJobs
pub mod Claims
pub mod Outcomes
pub mod Finalize
pub mod Escalation
pub mod Drain
pub mod Pending
pub mod Drained
pub mod Active
pub mod Members
pub mod Membership
pub mod Samples
mod Tests

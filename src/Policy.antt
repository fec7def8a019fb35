-- ===== src/Policy.antt =====
-- crates/policy/src/lib.rs: the decision that every governed operation asks for. The engine is a
-- trait there and a function `PolicyRequest → Decision` here.
pub mod Engine
pub mod Cedar
pub mod FailClosed
mod Tests

-- ===== src/Gateway.antt =====
-- crates/gateway: the model gateway.
pub mod Guardrails
pub mod Redaction
pub mod Provider
pub mod Tables
pub mod Keys
pub mod Call
pub mod Complete
pub mod Reads
pub mod Served
pub mod Branches
pub mod Killed
pub mod ToolLoop
pub mod Consulted
mod Tests

-- ===== src/Runtime.antt =====
-- crates/essenty/src/runtime.rs: the runtime (Dispatch), what it reports (Reports), and that it
-- returns (Returns).
pub mod Dispatch
pub mod Reports
pub mod Returns
pub mod Examples

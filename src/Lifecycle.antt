-- ===== src/Lifecycle.antt =====
-- crates/essenty-lifecycle: the states (State), the scripts that stand for observers (Script), the
-- registry (Registry) and its subscriptions.
pub mod State
pub mod Script
pub mod Registry
pub mod Subscribe
pub mod Automaton
pub mod Invariants
pub mod Scripts
pub mod Route
pub mod Visit
pub mod Delivery
pub mod Guards
pub mod Hooks
pub mod Examples

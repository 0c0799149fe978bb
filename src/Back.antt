-- ===== src/Back.antt =====
-- crates/essenty-back-handler: the events (Event), the dispatcher and its commands (Dispatcher).
pub mod Event
pub mod Dispatcher
pub mod Gestures
pub mod Soundness
pub mod Termination
pub mod Winner
pub mod Invariant
pub mod Outcomes
pub mod Telling
pub mod Runs
pub mod Told
pub mod Examples

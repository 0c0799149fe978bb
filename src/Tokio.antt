-- ===== src/Tokio.antt =====
-- crates/essenty-lifecycle-tokio: what the code asks of Tokio (Runtime), the repetition of a task with the
-- lifecycle (Repeat and its steps), and the scope that cancels its tasks (Scope).
pub mod Runtime
pub mod Repeat
pub mod Steps
pub mod Children
pub mod NoOverlap
pub mod Launches
pub mod Ending
pub mod Scope
pub mod Cancelling
pub mod Tracking
pub mod Examples

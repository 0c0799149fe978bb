-- ===== src/Adapters.antt =====
-- The lifecycle hosts of crates/essenty-android, crates/essenty-apple and crates/essenty-web (Hosts), and what
-- a callback of the platform leads to (Callbacks); a registry that events drive (Driven), by the
-- notifications of Apple's applications (Shared, Macos, Uikit, Watch; Targets, Applications) and by the events of a
-- native activity (Activity; Polling).
pub mod Hosts
pub mod Driven
pub mod Shared
pub mod Macos
pub mod Uikit
pub mod Watch
pub mod Targets
pub mod Applications
pub mod Activity
pub mod Polling
pub mod Callbacks
pub mod Examples

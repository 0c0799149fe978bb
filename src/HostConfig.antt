-- ===== src/HostConfig.antt =====
-- crates/essenty-android/src/native_config.rs: the configuration changes that an Activity declares
-- (Category, Set), their manifest text (Manifest) and the diagnosis of a host (Report),
-- which the activity is asked for (Inspect).
pub mod Category
pub mod Set
pub mod Manifest
pub mod Report
pub mod Inspect
pub mod Places
pub mod Members
pub mod Parsing
pub mod Tokens
pub mod Diagnosis
pub mod Inspecting
pub mod Examples

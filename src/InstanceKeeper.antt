-- ===== src/InstanceKeeper.antt =====
-- crates/essenty-instance-keeper: the keeper (Keeper), what it retains across calls (Retention) and
-- how its scope ends (Ending).
pub mod Keeper
pub mod Retention
pub mod Calls
pub mod Ending
pub mod Examples

-- ===== src/StateKeeper.antt =====
-- crates/essenty-state-keeper: the keeper (Keeper), what a save holds (Saving), and what becomes of
-- a saved value (Restoring).
pub mod Keeper
pub mod Saving
pub mod Restoring
pub mod Examples

-- ===== src/Rebalance.antt =====
-- internal/rebalance: the engine's decision lifecycle, its writer and its enactors.
pub mod State
pub mod Writer
pub mod Settings
pub mod Dispatch
pub mod Enact
pub mod Triggers
pub mod Reconcile
pub mod Wakeups
pub mod Setup

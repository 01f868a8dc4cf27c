-- ===== src/Controller.antt =====
-- internal/controller: the controller of OrchestrationProfile resources.
pub mod Status
pub mod Validation
pub mod Reconcile
pub mod Watchers

-- ===== src/Reconcile.antt =====
-- src/application/app/reconcile.rs: the rounds in which the core compares the router with what is
-- desired and repairs it, and the worker that ends the maintenance.
pub mod Round
pub mod Repair
pub mod Start
mod Drift
pub mod Decision
pub mod Rest
pub mod RuntimeRepair
pub mod Completion
pub mod MaintenanceExit
pub mod MaintenanceEnd

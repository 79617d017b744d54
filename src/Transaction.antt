-- ===== src/Transaction.antt =====
-- src/application/transaction.rs and src/application/wan.rs: the worker that carries a change of the
-- configuration to the router, and takes it back if it does not hold.
pub mod Context
pub mod Verify
pub mod Wifi
pub mod Quiet
pub mod Outcome
pub mod Conclusion
pub mod Persistence
pub mod Atomicity
pub mod Termination
pub mod Marks
pub mod Sync
pub mod SyncQuiet
pub mod SyncTermination
pub mod Completion
pub mod Wan

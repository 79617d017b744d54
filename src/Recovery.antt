-- ===== src/Recovery.antt =====
-- src/application/app/recovery.rs: what is done, after a restart, with the journal of a change that was
-- under way.
pub mod Journal
pub mod Closing
pub mod Decision
pub mod Completion
pub mod Termination
pub mod Restart

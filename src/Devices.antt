-- ===== src/Devices.antt =====
-- The devices of the network: what the router sees of them and what the user registers.
pub mod Identity
pub mod Names
pub mod Inventory
pub mod Validation
pub mod Registration
pub mod Operations
pub mod Registry
pub mod Rules
pub mod Quiet
pub mod Keeping
pub mod Consistency
mod Lookup
pub mod Retention
mod Observed
pub mod Snapshot

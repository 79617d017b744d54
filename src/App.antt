-- ===== src/App.antt =====
-- src/application/app: the state of the core and its operations.
pub mod State
pub mod Monad
pub mod Mutex
pub mod Store
pub mod Publisher
pub mod Observation
pub mod WifiOperations
pub mod Still
pub mod Quiet
pub mod Ends
pub mod Leaves
pub mod EndStates
pub mod Timely
pub mod Maintenance
pub mod MaintenanceLaws
pub mod Delivery
pub mod WanOperations

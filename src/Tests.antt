-- ===== src/Tests.antt =====
-- Concrete inputs of the theorems.
pub mod Bench
pub mod Wan
pub mod Core
pub mod Requests
pub mod Services
pub mod Upkeep
mod Memory
mod Traffic
mod Devices
mod Mesh

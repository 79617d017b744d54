-- ===== src/Domain.antt =====
-- The data types of the core (src/domain).
pub mod Errors
pub mod Roaming
pub mod Wan
pub mod Wifi
pub mod Device
pub mod Traffic
pub mod Services
pub mod Operation
pub mod Config

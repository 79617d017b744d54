-- ===== src/Wan.antt =====
-- src/application/wan: what a WAN configuration means, and which ones the core accepts.
pub mod Normalization
pub mod Matching
pub mod Address
pub mod Netmask
pub mod Qos
pub mod Validation
pub mod Acceptance

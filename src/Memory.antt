-- ===== src/Memory.antt =====
-- src/infrastructure/backend/memory: a router in memory, which the core is tried on.
pub mod State
pub mod Router
pub mod Apply
pub mod Contract
pub mod Shows
pub mod Refinement
pub mod Traces

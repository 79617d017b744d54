-- ===== src/Traffic.antt =====
-- The traffic of the router: its rates and its charts (src/application/traffic_sampler.rs).
pub mod Sampler
pub mod Charts

-- ===== src/Mesh.antt =====
-- The extenders of the mesh: their pairing and what they report (src/application/app/mesh_state.rs and
-- src/application/app/operations/mesh.rs).
pub mod Pairing
pub mod Master
pub mod Tokens
pub mod Queue

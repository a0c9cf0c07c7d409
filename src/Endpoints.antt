-- ===== src/Endpoints.antt =====
-- The endpoints controller: controllers/src/endpoints.
pub mod Defs
pub mod Resync
pub mod Added

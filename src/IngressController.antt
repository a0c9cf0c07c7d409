-- ===== src/IngressController.antt =====
-- The ingress controller: controllers/src/ingress.
pub mod Texts
pub mod Plain
pub mod Defs
pub mod Proxied
pub mod Reconfigured

-- ===== src/Serverless.antt =====
-- The router of functions and workflows: serverless/src/router.
pub mod Walk
pub mod Termination
pub mod Route
pub mod Activation

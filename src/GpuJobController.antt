-- ===== src/GpuJobController.antt =====
-- The controller of GPU jobs: controllers/src/gpu_job/controller.rs.
pub mod Files
pub mod Defs
pub mod Bounds

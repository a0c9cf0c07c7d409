-- ===== src/PodAutoscaler.antt =====
-- The horizontal pod autoscaler: controllers/src/podautoscaler. Each operation reads the clock at
-- most a few times in a row; here a call takes one reading, `now`.
pub mod Float
pub mod Calculator
pub mod Limits
pub mod Control
pub mod Reconcile
pub mod WorkQueue
pub mod Window
pub mod Rate
pub mod Bounds

-- ===== src/Scheduler.antt =====
-- The scheduler: scheduler/src. `now` is what the clock shows, and the answer of the API server to
-- a binding is an argument; what the informers deliver are the inputs of `Run.step`.
pub mod Cache
pub mod Algorithm
pub mod Run
pub mod Least
pub mod Balance
pub mod Counts
pub mod Queue

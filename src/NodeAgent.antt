-- ===== src/NodeAgent.antt =====
-- The node agent: rkubelet/src. Docker, the file system and the printing of numbers are a
-- parameter, `Host`.
pub mod Docker
pub mod Status
pub mod Naming
pub mod Pods
pub mod Lifecycle
pub mod Worker
pub mod Tracking
pub mod Phase
pub mod Teardown
pub mod Restart
pub mod Finished
pub mod Resync

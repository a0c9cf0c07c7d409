-- ===== src/ReplicaSetController.antt =====
-- The replica set controller: controllers/src/replica_set/controller.rs.
pub mod Defs
pub mod Sorting
pub mod Victim
pub mod Turn
pub mod Stores
pub mod Converge
pub mod Progress

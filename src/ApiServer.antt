-- ===== src/ApiServer.antt =====
-- The API server: api_server/src/handler, with etcd as a map from keys to objects.
pub mod Etcd
pub mod Handlers
pub mod Cluster
pub mod Apps
pub mod Functions
pub mod Targets
pub mod Scraping
pub mod Workflows
pub mod Filed
pub mod AppSteps
pub mod Steps
pub mod Invariant
pub mod Kinds
pub mod Bind
pub mod Services
pub mod RoundTrips

-- ===== src/Objects.antt =====
-- The API objects: resources/src/objects. A `Uuid` and an `Ipv4Addr` are numbers, a
-- `NaiveDateTime` counts nanoseconds, an `i64` is its bit pattern.
mod Meta
mod Selector
mod ContainerSpec
mod PodObject
mod Workloads
mod Autoscaler
mod Flow
mod Functions
mod Kind
unfoldable pub use Meta.*
unfoldable pub use Selector.*
unfoldable pub use ContainerSpec.*
unfoldable pub use PodObject.*
unfoldable pub use Workloads.*
unfoldable pub use Autoscaler.*
unfoldable pub use Flow.*
unfoldable pub use Functions.*
unfoldable pub use Kind.*

-- ===== src/Prelude.antt =====
-- What every module shares: names of the libraries, Boolean tests, equality as an interface,
-- lists over the native numbers, and `HashMap` as an association list.
mod Tests
mod Equality
mod Lists
mod Words
mod Results
mod Texts
mod Members
pub mod HashMap
pub mod Replace
mod MapEquality
unfoldable pub use Tests.*
unfoldable pub use Equality.*
unfoldable pub use Lists.*
pub use MapEquality.*
unfoldable pub use Words.*
unfoldable pub use Results.*
unfoldable pub use Texts.*
pub use Members.*
pub use Prim.Native.Nat.{ℕ, zero, suc, ◌+◌, ◌-◌, ◌*◌, ◌/◌, ◌%◌, ◌^◌, ◌≤◌, ◌<◌, min, max}
pub use Prim.Native.String.{String}
pub use mathlib.Core.Path.{◌≡◌, refl, sym, ap, ◌∙◌}
pub use mathlib.Core.Logic.{◌≢◌, ◌↔◌, ◌⊎◌, inl, inr}
pub use mathlib.Core.Bool.{Bool, true, false, ◌&&◌, ◌||◌, not}
pub use mathlib.Core.Option.{Option, none, some}
pub use mathlib.Core.List.{List, [], ◌∷◌, ◌++◌, map}
pub use native.Mathlib.Omega.{arith}

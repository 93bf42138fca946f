-- ===== src/Base.antt =====
-- Names that every module shares: the libraries' own, passed on, the tests on numbers and texts,
-- the results of fallible code, and Go's `map[string]T`.
mod Tests
mod Results
mod Effects
pub mod Dict
pub mod Lists
pub mod Int
pub mod Act
pub mod Measure
pub use Lists.*
unfoldable pub use Tests.*
pub use Results.*
pub use Effects.*
pub use Prim.Native.Nat.{ℕ, zero, suc, ◌+◌, ◌-◌, ◌*◌, ◌%◌, ◌^◌, ◌≤◌, ◌<◌}
pub use Prim.Native.String.{String, ◌++◌ as ◌<>◌}
pub use mathlib.Core.Path.{◌≡◌, refl, sym, ap, ◌∙◌}
pub use mathlib.Core.Logic.{◌≢◌, ◌↔◌, ◌⊎◌, inl, inr}
pub use mathlib.Core.Bool.{Bool, true, false, not, ◌&&◌, ◌||◌}
pub use mathlib.Core.Option.{Option, none, some}
pub use mathlib.Core.List.{List, [], ◌∷◌, ◌++◌, map}
pub use native.Mathlib.Omega.{arith}

-- ===== src/Base.antt =====
-- Names that every module of the library shares: the libraries', passed on, and those of the
-- children: Boolean tests, lists over the native numbers, integers, results and checked arithmetic.
mod Tests
mod Lists
mod Indices
pub mod Int
pub mod Results
pub mod Float
pub mod Sort
pub mod Text
pub mod Table
pub mod Distinct
pub mod Decimal
pub use Tests.*
pub use Lists.*
pub use Indices.*
pub use Prim.Native.Nat.{ℕ, zero, suc, ◌+◌, ◌-◌, ◌*◌, ◌/◌, ◌%◌, ◌^◌, ◌≤◌, ◌<◌, min, max}
pub use mathlib.Core.Path.{◌≡◌, refl, sym, ap, ◌∙◌, subst}
pub use mathlib.Core.Logic.{◌≢◌, ◌↔◌, ◌⊎◌, inl, inr}
pub use mathlib.Core.Bool.{Bool, true, false, not, ◌&&◌, ◌||◌}
pub use mathlib.Core.Option.{Option, none, some}
pub use mathlib.Core.List.{List, [], ◌∷◌, ◌++◌, map}
pub use native.Mathlib.Omega.{arith}

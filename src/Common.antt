-- ===== src/Common.antt =====
-- The names that the modules of this library share: the libraries', passed on, Boolean tests,
-- byte buffers as lists, and signed numbers.
pub mod Tests
pub mod Lists
pub mod Slices
pub mod Int
pub mod First
pub use Tests.*
pub use Lists.*
pub use Slices.*
pub use Int.*
pub use First.*
pub use Prim.Native.Nat.{ℕ, zero, suc, ◌+◌, ◌-◌, ◌*◌, ◌/◌, ◌%◌, ◌^◌, ◌≤◌, ◌<◌, min}
pub use mathlib.Core.Path.{◌≡◌, refl, sym, ap, ap₂, ◌∙◌, subst}
pub use mathlib.Core.Logic.{◌≢◌, ◌↔◌, ◌⊎◌, inl, inr}
pub use mathlib.Core.Bool.{Bool, true, false, ◌&&◌, ◌||◌, not}
pub use mathlib.Core.Option.{Option, none, some}
pub use mathlib.Core.List.{List, [], ◌∷◌, ◌++◌, map}
pub use native.Mathlib.Omega.{arith}

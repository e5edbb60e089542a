-- ===== src/Common.antt =====
-- The names that every part shares: library names passed on, Boolean tests on the native numbers,
-- Go's signed integers, texts as lists of code points, results with an error, and instants.
mod Tests
mod Lists
mod Signed
mod Strings
mod Results
mod Clock
pub use Tests.*
pub use Lists.*
pub use Signed.*
unfoldable pub use Strings.*
pub use Results.*
unfoldable pub use Clock.*
pub use Prim.Native.Nat.{ℕ, zero, suc, ◌+◌, ◌-◌, ◌*◌, ◌/◌, ◌%◌, ◌^◌, ◌≤◌, ◌<◌}
pub use mathlib.Core.Path.{◌≡◌, refl, sym, ap, subst, ◌∙◌}
pub use mathlib.Core.Logic.{◌≢◌, ◌↔◌, ◌⊎◌, inl, inr}
pub use mathlib.Core.Bool.{Bool, true, false, not, ◌&&◌, ◌||◌}
pub use mathlib.Core.Option.{Option, none, some}
pub use mathlib.Core.List.{List, [], ◌∷◌, ◌++◌, map}
pub use native.Mathlib.Omega.{arith}

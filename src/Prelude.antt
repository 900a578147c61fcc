-- ===== src/Prelude.antt =====
-- Names that the modules share: the libraries', passed on, Boolean tests, lists over the native
-- numbers, and fallible actions on a state.
mod Tests
mod Lists
mod Effects
mod Texts
mod Integers
pub use Tests.*
pub use Lists.*
pub use Effects.*
unfoldable pub use Texts.*
pub use Integers.*
pub use Prim.Native.Nat.{ℕ, zero, suc, ◌+◌, ◌-◌, ◌*◌, ◌/◌, ◌%◌, ◌^◌, ◌≤◌, ◌<◌, min, max}
pub use mathlib.Core.Path.{◌≡◌, refl, sym, ap, subst, ◌∙◌}
pub use mathlib.Core.Logic.{◌≢◌, ◌↔◌, ◌⊎◌, inl, inr}
pub use mathlib.Core.Bool.{Bool, true, false, not, ◌&&◌, ◌||◌}
pub use mathlib.Core.Option.{Option, none, some}
pub use mathlib.Core.List.{List, [], ◌∷◌, ◌++◌, map}
pub use native.Mathlib.Omega.{arith}

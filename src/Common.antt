-- ===== src/Common.antt =====
-- The names that the other modules share: the libraries' names, Boolean tests, lists measured by
-- native numbers, outcomes of fallible code, and the laws of the bit operations.
mod Tests
mod Lists
mod Outcomes
mod Bits
mod Dicts
mod Texts
pub use Tests.*
pub use Lists.*
pub use Outcomes.*
pub use Bits.*
unfoldable pub use Dicts.*
pub use Texts.*
pub use Prim.Native.Nat.{ℕ, zero, suc, ◌+◌, ◌-◌, ◌*◌, ◌/◌, ◌%◌, ◌^◌, ◌≤◌, ◌<◌, min, max}
pub use Prim.Native.Nat.{bit_and, bit_or, bit_xor}
pub use mathlib.Core.Path.{◌≡◌, refl, sym, ap, ◌∙◌, subst}
pub use mathlib.Core.Logic.{◌≢◌, ◌↔◌, ◌⊎◌, inl, inr}
pub use mathlib.Core.Bool.{Bool, true, false, not, ◌&&◌, ◌||◌}
pub use mathlib.Core.Option.{Option, none, some}
pub use mathlib.Core.List.{List, [], ◌∷◌, ◌++◌, map, reverse}
pub use native.Mathlib.Omega.{arith}
pub use native.Mathlib.Nat.{pow-suc, mod-eq_of_lt}

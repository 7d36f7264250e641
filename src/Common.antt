-- ===== src/Common.antt =====
-- What the other modules share: the library's names, passed on, Boolean tests on the native
-- numbers, lists measured by them, C integers, and the outcome of a C function.
mod Tests
mod Lists
mod Predicates
pub mod Ints
pub use Tests.*
pub use Lists.*
pub use Predicates.*
pub use Ints.{ℤ, pos, negsuc, minus_one, inc, dec, eqz, ltz, is_neg, pos_part, eqz_iff}
pub use Prim.Native.Nat.{ℕ, zero, suc, ◌+◌, ◌-◌, ◌*◌, ◌/◌, ◌%◌, ◌^◌, ◌≤◌, ◌<◌, min}
pub use mathlib.Core.Path.{◌≡◌, refl, sym, ap, ◌∙◌, subst}
pub use mathlib.Core.Logic.{◌≢◌, ◌↔◌, ◌⊎◌, inl, inr}
pub use mathlib.Core.Bool.{Bool, true, false, not, ◌&&◌, ◌||◌}
pub use mathlib.Core.Option.{Option, none, some}
pub use mathlib.Core.List.{List, [], ◌∷◌, ◌++◌, map, append-nil, append_assoc}
pub use native.Mathlib.Omega.{arith}

-- ===== src/Common.antt =====
-- Names, tests and lemmas that the models of the crates share: the library's names passed on,
-- Boolean tests on native numbers (Tests), lists measured by native numbers (Lists), total orders
-- (Order) and the ordered map that stands for `BTreeMap` (Map).
mod Tests
mod Lists
pub mod Results
pub mod Bits
pub mod Text
pub mod Pieces
pub mod Ints
pub mod Order
pub mod Map
pub use Tests.*
pub use Lists.*
pub use Prim.Native.Nat.{ℕ, zero, suc, ◌+◌, ◌-◌, ◌*◌, ◌/◌, ◌%◌, ◌^◌, ◌≤◌, ◌<◌}
pub use mathlib.Core.Path.{◌≡◌, refl, sym, ap, ◌∙◌, subst, fun_ext}
pub use mathlib.Core.Logic.{◌≢◌, ◌↔◌, ◌⊎◌, inl, inr}
pub use mathlib.Core.Bool.{Bool, true, false, ◌&&◌, ◌||◌, not}
pub use mathlib.Core.Option.{Option, none, some}
pub use mathlib.Core.List.{List, [], ◌∷◌, ◌++◌, map, reverse}
pub use native.Mathlib.Omega.{arith}

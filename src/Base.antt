-- ===== src/Base.antt =====
-- Names that every module of this library shares: numbers, equality, lists, options, tests on
-- numbers, native-number versions of list functions, well-founded order and counted loops.
mod Tests
mod Lists
pub mod Loop
pub mod Power
pub mod Bits
pub mod Xor
pub mod Memory
pub mod Fill
pub mod Modular
pub use Tests.*
pub use Lists.*
pub use Prim.Native.Nat.{
  ℕ, zero, suc, ◌+◌, ◌-◌, ◌*◌, ◌/◌, ◌%◌, ◌^◌, ◌≤◌, ◌<◌, bit_or, bit_xor, bit_and,
}
pub use mathlib.Core.Path.{◌≡◌, refl, sym, ap, ◌∙◌}
pub use mathlib.Core.Logic.{◌≢◌, ◌⊎◌, inl, inr}
pub use mathlib.Core.Bool.{Bool, true, false, not, ◌&&◌, ◌||◌}
pub use mathlib.Core.Option.{Option, none, some}
pub use mathlib.Core.List.{List, [], ◌∷◌, ◌++◌}
pub use native.Mathlib.Omega.{arith}

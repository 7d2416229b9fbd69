-- ===== src/Common.antt =====
-- The names that all modules share: the libraries', passed on, and those of the children.
-- A byte is a number below 256, a `size_t` or an `int` a number whose bounds are stated where
-- they matter, and a C buffer is the list of its cells.
mod Tests
mod Lists
mod Memory
mod Buffers
mod Strtol
pub use Tests.*
pub use Lists.*
unfoldable pub use Strtol.*
pub use Buffers.*
unfoldable pub use Memory.*
pub use Prim.Native.Nat.{
  ℕ, zero, suc, ◌+◌, ◌-◌, ◌*◌, ◌/◌, ◌%◌, ◌^◌, ◌≤◌, ◌<◌, min, max, bit_and, bit_or,
}
pub use mathlib.Core.Path.{◌≡◌, refl, sym, subst, ap, ◌∙◌, ◌≡⟨◌⟩◌, ◌∎}
pub use mathlib.Core.Logic.{◌≢◌, ◌↔◌, ◌⊎◌, inl, inr}
pub use mathlib.Core.Bool.{Bool, true, false, not, ◌&&◌, ◌||◌}
pub use mathlib.Core.Option.{Option, none, some}
pub use mathlib.Core.List.{List, [], ◌∷◌, ◌++◌, map, reverse, append-nil, append_assoc}
pub use native.Mathlib.Omega.{arith}

-- ===== src/Base.antt =====
-- The names that the other modules share: the libraries', passed on, and those of the children.
mod Tests
mod Lists
mod Finds
mod Slices
pub mod Strings
pub mod Bits
pub mod Maps
pub use Tests.*
pub use Lists.*
pub use Finds.*
pub use Slices.*
pub use Strings.{
  Text, text_eq, text_eq_iff, text_eq_refl, text_eq_other, text_eq_of_ne, trim, is_empty,
  count_bytes, format,
}
pub use Prim.Native.Nat.{ℕ, zero, suc, ◌+◌, ◌-◌, ◌*◌, ◌/◌, ◌%◌, ◌^◌, ◌≤◌, ◌<◌, min, max}
pub use mathlib.Core.Path.{◌≡◌, refl, sym, ap, ◌∙◌, subst}
pub use mathlib.Core.Logic.{◌≢◌, ◌↔◌, ◌⊎◌, inl, inr}
pub use mathlib.Core.Bool.{Bool, true, false, not, ◌&&◌, ◌||◌}
pub use mathlib.Core.Option.{Option, none, some}
pub use mathlib.Core.List.{List, [], ◌∷◌, ◌++◌, map}
pub use native.Mathlib.Omega.{arith}

-- `uuid::Uuid`: a value of 128 bits, which the program only compares.
abbrev pub Uuid : Type 0
Uuid = ℕ

-- `Vec<u8>`
abbrev pub Bytes : Type 0
Bytes = List ℕ

-- A `u8` is less than 256.
abbrev pub AreBytes : Bytes → Type 0
AreBytes = All (λ b. b < 256)

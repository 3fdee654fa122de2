-- ===== src/Prelude.antt =====
-- Names that the modules share: the libraries', passed on, and those of the children. Numbers are
-- the native ones; a byte is a number below 256, and a `std::string` is its list of bytes.
mod Tests
mod Lists
pub mod Int
pub mod Words
pub mod Options
pub use Tests.*
pub use Lists.*
pub use Prim.Native.Nat.{ℕ, zero, suc, ◌+◌, ◌-◌, ◌*◌, ◌/◌, ◌%◌, ◌^◌, ◌≤◌, ◌<◌, min, max, Ordering}
pub use mathlib.Core.Path.{◌≡◌, refl, sym, ap, ◌∙◌, subst}
pub use mathlib.Core.Logic.{◌≢◌, ◌↔◌, ◌⊎◌, inl, inr}
pub use mathlib.Core.Bool.{Bool, true, false, ◌&&◌, ◌||◌, not}
pub use mathlib.Core.Option.{Option, none, some}
pub use mathlib.Core.List.{List, [], ◌∷◌, ◌++◌, map, append-nil, append_assoc}
pub use native.Mathlib.Omega.{arith}

-- The bytes of a `std::string`.
abbrev pub Bytes : Type 0
Bytes = List ℕ

-- ===== src/Common.antt =====
-- The names that the other modules share: the libraries', passed on, and those of the children.
mod Tests
mod Lists
mod Bytes
mod Monads
mod Loops
mod Powers
mod Strings
mod Words
pub mod Order
pub use Tests.*
pub use Lists.*
pub use Powers.*
unfoldable pub use Bytes.{to_le_bytes, from_le_bytes}
pub use Bytes.{length-to_le_bytes, from-to_le_bytes}
pub use Prim.Native.Nat.{ℕ, zero, suc, ◌+◌, ◌-◌, ◌*◌, ◌/◌, ◌%◌, ◌^◌, ◌≤◌, ◌<◌, min}
pub use mathlib.Core.Path.{◌≡◌, refl, sym, ap, ap₂, ◌∙◌, subst}
pub use mathlib.Core.Logic.{◌≢◌, ◌↔◌, ◌⊎◌, inl, inr}
pub use mathlib.Core.Bool.{Bool, true, false, ◌&&◌, ◌||◌, not}
pub use mathlib.Core.Option.{Option, none, some}
pub use Monads.*
unfoldable pub use Loops.{collect, map_all, checked_div, exact_div}
pub use Loops.{length-collect, get_elem?-collect, collect-total}
unfoldable pub use Words.{trailing_zeros, is_power_of_two}
pub use Words.{is_power_of_two-pow}
unfoldable pub use Strings.{text_eq}
pub use Strings.{Text, text, text_eq_iff, text_eq_refl}
pub use mathlib.Core.List.{List, [], ◌∷◌, ◌++◌, map, append-nil, append_assoc}
pub use native.Mathlib.Omega.{arith}
unfoldable pub use native.Mathlib.Decide.{dec_lt, ℕ_discrete}

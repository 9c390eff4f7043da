-- ===== src/Base.antt =====
-- The names that the other modules share: library names passed on, Boolean tests, lists over the
-- native numbers, bytes, and the tables that stand for the keyed containers of the plugins.
mod Tests
mod Lists
mod Tables
mod Strings
mod Integers
mod Decimal
mod Objects
pub use Tests.*
pub use Lists.*
pub use Tables.*
unfoldable pub use Tables.{find, erase, emplace, assign, replace}
pub use Strings.*
pub use Integers.*
pub use Decimal.*
pub use Objects.*
unfoldable pub use Strings.{contains, bytes_eq, c_string}
unfoldable pub use Decimal.{to_string}
unfoldable pub use Objects.{set_property, get_property}
pub use Prim.Native.Nat.{ℕ, zero, suc, ◌+◌, ◌-◌, ◌*◌, ◌/◌, ◌%◌, ◌^◌, ◌≤◌, ◌<◌, min}
pub use Prim.Native.String.{String}
pub use mathlib.Core.Path.{◌≡◌, refl, sym, ap, ◌∙◌, subst}
pub use mathlib.Core.Logic.{◌≢◌, ◌↔◌, ◌⊎◌, inl, inr}
pub use mathlib.Core.Bool.{Bool, true, false, not, ◌&&◌, ◌||◌}
pub use mathlib.Core.Option.{Option, none, some, some-injective}
pub use mathlib.Core.List.{List, [], ◌∷◌, ◌++◌, map, append_assoc, append-nil}
pub use native.Mathlib.Omega.{arith}

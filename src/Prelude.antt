-- ===== src/Prelude.antt =====
-- The names that the other modules share: the libraries', passed on, and those of the children.
pub mod Int64
mod Tests
mod Lists
mod Query
mod Rows
mod Strings
mod Int
mod Split
mod Decimal
pub use Tests.*
pub use Lists.*
pub use Query.*
pub use Rows.*
unfoldable pub use Query.{filter, find, update, count_where, insert_sorted, order_by}
pub use Strings.*
unfoldable pub use Strings.{str_eq}
pub use Split.*
unfoldable pub use Split.{split, join}
pub use Decimal.{join_text}
unfoldable pub use Decimal.{decimal, signed_decimal}
pub use Int.*
unfoldable pub use Int.{◌+ℤ◌, ◌-ℤ◌, ◌*ℤ◌}
pub use Prim.Native.Nat.{ℕ, zero, suc, ◌+◌, ◌-◌, ◌*◌, ◌/◌, ◌%◌, ◌^◌, ◌≤◌, ◌<◌}
pub use mathlib.Core.Path.{◌≡◌, refl, sym, ap, ap₂, ◌∙◌, subst, fun_ext}
pub use mathlib.Core.Logic.{◌≢◌, ◌↔◌, ◌⊎◌, inl, inr}
pub use mathlib.Core.Bool.{Bool, true, false, not, ◌&&◌, ◌||◌}
pub use mathlib.Core.Option.{Option, none, some}
pub use mathlib.Core.List.{List, [], ◌∷◌, ◌++◌, map, append-nil, append_assoc}
pub use native.Mathlib.Omega.{arith}

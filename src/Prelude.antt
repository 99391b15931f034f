-- ===== src/Prelude.antt =====
-- The names that the other modules share: the libraries', passed on, and those of the children.
mod Tests
mod Lists
mod Rows
mod Decimal
pub mod Trim
mod Strings
pub mod Exec
pub mod Options
pub mod Results
pub use Tests.*
pub use Lists.*
unfoldable pub use Rows.{update_where, count_where}
pub use Rows.{
  find-update_where, any_of_find, find_holds, All_find, update_where_none, has_key, Keyed,
  find_of_key, any_of_key, count_where_none,
}
unfoldable pub use Decimal.{decimal, read_decimal}
pub use Decimal.{
  decimal-injective, decimal-IsDigits, decimal-ne-nil, read_decimal-decimal, IsDigits,
}
unfoldable pub use Strings.*
pub use Prim.Native.Nat.{ℕ, zero, suc, ◌+◌, ◌-◌, ◌*◌, ◌/◌, ◌%◌, ◌^◌, ◌≤◌, ◌<◌}
pub use Prim.Native.String.{String}
pub use mathlib.Core.Path.{◌≡◌, refl, sym, ap, subst, ◌∙◌, ◌≡⟨◌⟩◌, ◌∎}
pub use mathlib.Core.Logic.{◌≢◌, ◌↔◌, ◌⊎◌, inl, inr}
pub use mathlib.Core.Bool.{Bool, true, false, ◌&&◌, ◌||◌, not}
pub use mathlib.Core.Option.{Option, none, some}
pub use mathlib.Core.List.{List, [], ◌∷◌, ◌++◌, map}
pub use native.Mathlib.Omega.{arith}

-- ===== src/Prelude.antt =====
-- The names that the other modules share: the libraries', passed on, and those of the children.
mod Tests
mod Lists
mod Maps
mod Throws
mod Order
pub use Tests.*
pub use Lists.*
pub use Maps.{
  Dict, IsKeyed, insert-IsKeyed, remove-IsKeyed, keep-IsKeyed, lookup-cons, lookup-keep,
  lookup-insert, lookup-remove, dict_laws,
}
unfoldable pub use Maps.{lookup, insert, remove}
pub use Throws.*
pub use Order.{
  first, cases_member, Memᴰ-first, Memᴰ-last, All-Memᴰ, All-of_Memᴰ, Memᴰ-keep, keep-Memᴰ,
  Memᴰ-sort, sort-Memᴰ, IsDescending, sort-IsDescending, first-sort_max, first-sort_none,
}
unfoldable pub use Order.{insert_desc, sort_desc}
pub use Prim.Native.Nat.{ℕ, zero, suc, ◌+◌, ◌-◌, ◌*◌, ◌/◌, ◌%◌, ◌≤◌, ◌<◌, min}
pub use Prim.Native.String.{String, ◌++◌ as str_append}
pub use mathlib.Core.Path.{◌≡◌, refl, sym, ap, ap₂, ◌∙◌, subst}
pub use mathlib.Core.Logic.{◌≢◌, ◌↔◌, ◌⊎◌, inl, inr}
pub use mathlib.Core.Bool.{Bool, true, false, not, ◌&&◌, ◌||◌}
pub use mathlib.Core.Option.{Option, none, some}
pub use mathlib.Core.List.{List, [], ◌∷◌, ◌++◌, map, Memᴰ}
pub use native.Mathlib.Omega.{arith}
pub use text.Mathlib.Text.{◌==◌ as str_eq, starts_with}
pub use text.Mathlib.TextEquality.{eq_iff}
pub use text.Mathlib.TextPositions.{eq_refl}

-- ===== src/Prelude.antt =====
-- The names that the other modules share: the libraries', passed on, and those of the children.
mod Tests
mod Lists
mod Equality
mod Maps
mod Texts
mod Sorting
pub use Tests.*
pub use Lists.*
pub use Equality.{Comparable, ◌==◌, Bytes, text, bytes_eq_refl, bytes_eq_iff, nat_eq, bytes_eq_eq}
unfoldable pub use Equality.{bytes_eq}
unfoldable pub use Texts.{has_prefix, has_infix}
pub use Maps.{
  Map, has_key, Distinct, eq_refl, lookup-put, lookup-put_self, lookup-delete, put-Distinct,
  delete-Distinct, contains-keys,
}
unfoldable pub use Maps.{keys, lookup, put, delete, contains}
pub use Sorting.{Ord, nat_ord, bytes_ord, IsSorted, sort-IsSorted, sort-All, contains-sort}
unfoldable pub use Sorting.{bytes_le, sort}
pub use Prim.Native.Nat.{ℕ, zero, suc, ◌+◌, ◌-◌, ◌*◌, ◌/◌, ◌%◌, ◌^◌, ◌≤◌, ◌<◌, min, max}
pub use mathlib.Core.Path.{◌≡◌, refl, sym, ap, subst, ◌∙◌}
pub use mathlib.Core.Logic.{◌≢◌, ◌↔◌, ◌⊎◌, inl, inr}
pub use mathlib.Core.Bool.{Bool, true, false, not, ◌&&◌, ◌||◌}
pub use mathlib.Core.Option.{Option, none, some}
pub use mathlib.Core.List.{List, [], ◌∷◌, ◌++◌, map}
pub use native.Mathlib.Omega.{arith}

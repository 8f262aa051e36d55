-- ===== src/Base.antt =====
-- The names that the other modules share: the libraries', passed on, and those of the children.
mod Tests
mod Lists
mod Same
mod Members
mod Word
mod Order
pub mod Sort
pub mod Sets
unfoldable pub use Tests.{str_discrete}
pub use Tests.*
unfoldable pub use Lists.{nats_eq}
pub use Lists.*
pub use Same.*
pub use Members.*
pub use Word.*
pub use Order.{Ord, IsTotal, flip, is_eq, nat_ord, string_ord, pair_ord, Ordering-cases}
pub use Prim.Native.Nat.{ℕ, zero, suc, ◌+◌, ◌-◌, ◌*◌, ◌/◌, ◌%◌, ◌^◌, ◌≤◌, ◌<◌, min, max}
pub use Prim.Native.String.{String}
pub use mathlib.Core.Path.{◌≡◌, refl, sym, ap, ◌∙◌, subst, subst₂}
pub use mathlib.Core.Logic.{◌≢◌, ◌↔◌, ◌⊎◌, inl, inr, ite, if_pos, if_neg}
pub use mathlib.Core.Bool.{Bool, true, false, not, ◌&&◌, ◌||◌}
pub use mathlib.Core.Option.{Option, none, some}
pub use mathlib.Core.List.{List, [], ◌∷◌, ◌++◌, map}
pub use native.Mathlib.Omega.{arith}
unfoldable pub use Sort.{insert_by, sort_by}
unfoldable pub use Sets.{set_insert, set_of, set_contains, union_count, intersection_count}

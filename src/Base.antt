-- ===== src/Base.antt =====
-- The names that the other modules share: the libraries', passed on, and those of the children.
mod Tests
mod Lists
pub mod Int
mod Strings
pub mod Outcome
pub mod SyncMap
pub mod Sort
pub use Tests.*
pub use Lists.*
pub use Int.{ℤ, pos, negsuc, pos_part, neg_part, sub_ℕ, ◌≤ℤ◌, ltb_ℤ}
pub use Strings.{
  Text, codes, text_eq_refl, text_eq_iff, text_neq, to_lower_idem, text_laws, to_lower-append,
}
unfoldable pub use Strings.{text_eq, to_lower}
unfoldable pub use Int.{◌+ℤ◌, ◌-ℤ◌}
pub use Prim.Native.Nat.{ℕ, zero, suc, ◌+◌, ◌-◌, ◌*◌, ◌/◌, ◌%◌, ◌^◌, ◌≤◌, ◌<◌}
pub use mathlib.Core.Path.{◌≡◌, refl, sym, ap, ◌∙◌, subst}
pub use mathlib.Core.Logic.{◌≢◌, ◌↔◌, ◌⊎◌, inl, inr}
pub use mathlib.Core.Bool.{Bool, true, false, not, ◌&&◌, ◌||◌}
pub use mathlib.Core.Option.{Option, none, some}
pub use mathlib.Core.List.{List, [], ◌∷◌, ◌++◌, map}
pub use native.Mathlib.Omega.{arith}

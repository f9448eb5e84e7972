-- ===== src/Common.antt =====
-- The names that the other modules share: the libraries', passed on, and those of the children.
mod Tests
mod Lists
mod Equality
mod Maps
mod Str
mod Int
mod Optional
mod Ordered
mod Filling
mod Sorting
mod Fresh
pub use Tests.*
pub use Lists.*
pub use Maps.*
pub use Ordered.*
pub use Sorting.*
pub use Fresh.*
pub use Filling.*
pub use Optional.*
pub use Int.{ℤ, pos, negsuc, int_beq, int_beq_iff}
unfoldable pub use Str.{strip, is_space}
pub use Str.{Text, codes, rstrip, is_empty, has_control, has_control-take}
pub use Equality.{Key, ◌==◌, nat_key, string_key, text_key, pair_key, list_beq_iff}
unfoldable pub use Equality.{list_beq}
pub use Prim.Native.Nat.{ℕ, zero, suc, ◌+◌, ◌-◌, ◌*◌, ◌/◌, ◌%◌, ◌≤◌, ◌<◌, min, max}
pub use Prim.Native.String.{String}
pub use mathlib.Core.Path.{◌≡◌, refl, sym, ap, ◌∙◌, subst}
pub use mathlib.Core.Logic.{◌≢◌, ◌↔◌, ◌⊎◌, inl, inr}
pub use mathlib.Core.Bool.{Bool, true, false, not, ◌&&◌, ◌||◌}
pub use mathlib.Core.Option.{Option, none, some}
pub use mathlib.Core.List.{List, [], ◌∷◌, ◌++◌, map, reverse}
pub use native.Mathlib.Omega.{arith}

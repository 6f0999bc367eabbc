-- ===== src/Base.antt =====
-- The names that the other modules share: those of the libraries, passed on, and of the children.
-- Text is a list of bytes (`Base/Text`), as a Go string is.
mod Tests
mod Lists
mod Text
mod Int
pub mod Member
pub mod Sort
pub mod Map
pub mod Trim
pub mod Decimal
mod Results
pub use Tests.*
pub use Lists.*
unfoldable pub use Text.*
pub use Int.*
pub use Results.*
pub use Prim.Native.Nat.{
  ℕ, zero, suc, ◌+◌, ◌-◌, ◌*◌, ◌/◌, ◌%◌, ◌^◌, ◌≤◌, ◌<◌, min, max, compare, Ordering,
}
pub use Prim.Native.String.{String}
pub use mathlib.Core.Path.{◌≡◌, refl, sym, ap, ◌∙◌, subst}
pub use mathlib.Core.Logic.{◌≢◌, ◌↔◌, ◌⊎◌, inl, inr}
pub use mathlib.Core.Bool.{Bool, true, false, not, ◌&&◌, ◌||◌}
pub use mathlib.Core.Option.{Option, none, some}
pub use mathlib.Core.List.{List, [], ◌∷◌, ◌++◌, map, reverse}
pub use native.Mathlib.Omega.{arith}

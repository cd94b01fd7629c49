-- ===== src/Common.antt =====
-- The names that the other modules share: the libraries', and those of the children.
mod Tests
mod Lists
mod Results
mod Bytes
pub mod Maybe
pub mod Exec
pub mod Tables
pub mod Int
pub mod Sort
pub use Tests.*
pub use Lists.*
pub use Results.*
pub use Bytes.{
  Text, codes, text_eq_iff, text_eq_refl, text_lt_asymm, text_lt_connected, text_lt_trans,
}
unfoldable pub use Bytes.{text_eq, text_lt}
pub use Prim.Native.Nat.{ℕ, zero, suc, ◌+◌, ◌-◌, ◌*◌, ◌/◌, ◌%◌, ◌^◌, ◌≤◌, ◌<◌}
pub use mathlib.Core.Path.{◌≡◌, refl, sym, ap, ◌∙◌}
pub use mathlib.Core.Logic.{◌≢◌, ◌↔◌, ◌⊎◌, inl, inr}
pub use mathlib.Core.Bool.{Bool, true, false, not, ◌&&◌, ◌||◌}
pub use mathlib.Core.Option.{Option, none, some}
pub use mathlib.Core.List.{List, [], ◌∷◌, ◌++◌, map}
pub use native.Mathlib.Omega.{arith}

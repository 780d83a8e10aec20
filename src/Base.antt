-- ===== src/Base.antt =====
-- The names that the modules share: the libraries', passed on, and those of the children.
mod Tests
mod Lists
mod Results
mod Order
pub mod Int
pub use Tests.*
pub use Lists.*
pub use Results.*
unfoldable pub use Order.{lt_wf}
pub use Order.{Acc-irrelevant}
pub use Prim.Native.Nat.{ℕ, zero, suc, ◌+◌, ◌-◌, ◌*◌, ◌/◌, ◌%◌, ◌^◌, ◌≤◌, ◌<◌, min, max}
pub use mathlib.Core.Path.{◌≡◌, refl, sym, ap, subst, ◌∙◌, fun_ext}
pub use mathlib.Core.Logic.{◌≢◌, ◌↔◌, ◌⊎◌, inl, inr, ite, dite, if_pos, if_neg, dif_pos, dif_neg}
pub use mathlib.Core.Bool.{Bool, true, false, ◌&&◌, ◌||◌, not}
pub use mathlib.Core.Option.{Option, none, some}
pub use mathlib.Core.List.{List, [], ◌∷◌, ◌++◌, map}
pub use mathlib.Core.WellFounded.{Acc, WellFounded}
pub use native.Mathlib.Omega.{arith}
pub use native.Mathlib.Bridge.{le_prop}
unfoldable pub use native.Mathlib.Decide.{dec_lt, dec_le, ℕ_discrete}

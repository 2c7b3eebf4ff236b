-- ===== src/Common.antt =====
-- Names shared by the other modules: the libraries', the Boolean tests, `Result` and the actions that
-- may raise, decimals as exact integers, and dictionaries.
mod Tests
mod Outcome
mod Lists
pub mod Int
pub mod Dict
pub use Tests.*
pub use Outcome.*
pub use Lists.*
pub use Int.*
pub use Prim.Native.Nat.{ℕ, zero, suc, ◌+◌, ◌-◌, ◌*◌, ◌≤◌, ◌<◌}
pub use mathlib.Core.Path.{◌≡◌, refl, sym, ap, subst, ◌∙◌}
pub use mathlib.Core.Logic.{◌≢◌, ◌⊎◌, inl, inr}
pub use mathlib.Core.Bool.{Bool, true, false, ◌&&◌, ◌||◌, not}
pub use mathlib.Core.Option.{Option, none, some}
pub use mathlib.Core.List.{List, [], ◌∷◌, ◌++◌, map}
pub use native.Mathlib.Omega.{arith}

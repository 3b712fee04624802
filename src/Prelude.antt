-- ===== src/Prelude.antt =====
-- The names that the modules of every component share: the libraries', passed on, and those of
-- the children (Boolean tests, integers, lists, texts and Go maps).
mod Tests
mod Lists
mod Strings
mod Maps
mod Split
mod Integers
pub use Prim.Native.Nat.{ℕ, zero, suc, ◌+◌, ◌-◌, ◌*◌, ◌≤◌, ◌<◌}
pub use mathlib.Core.Path.{◌≡◌, refl, sym, ap, ◌∙◌}
pub use mathlib.Core.Logic.{◌≢◌, ◌↔◌, ◌⊎◌, inl, inr}
pub use mathlib.Core.Bool.{Bool, true, false, ◌&&◌, ◌||◌, not}
pub use mathlib.Core.Option.{Option, none, some}
pub use mathlib.Core.List.{List, [], ◌∷◌, ◌++◌, map}
pub use native.Mathlib.Omega.{arith}
pub use Tests.*
pub use Lists.*
pub use Integers.*
unfoldable pub use Strings.*
unfoldable pub use Maps.*
unfoldable pub use Split.*

-- ===== src/Base.antt =====
-- What the modules share: names of the libraries, passed on, tests on numbers, texts as bytes,
-- Go's `error` values and small facts about lists.
mod Tests
mod Bytes
mod Lists
mod Paths
mod TextLaws
mod PathLaws
pub mod Errors
pub use Tests.*
unfoldable pub use Bytes.*
unfoldable pub use TextLaws.*
unfoldable pub use PathLaws.*
unfoldable pub use Paths.*
unfoldable pub use Lists.*
unfoldable pub use Errors.*
pub use Prim.Native.Nat.{ℕ, zero, suc, ◌+◌, ◌-◌, ◌≤◌, ◌<◌}
pub use mathlib.Core.Path.{◌≡◌, refl, sym, ap, ◌∙◌, subst}
pub use mathlib.Core.Logic.{◌≢◌, ◌↔◌, ◌⊎◌, inl, inr}
pub use mathlib.Core.Bool.{Bool, true, false, not, ◌&&◌, ◌||◌}
pub use mathlib.Core.Option.{Option, none, some}
pub use mathlib.Core.List.{List, [], ◌∷◌, ◌++◌, map, append-nil, append_assoc}
pub use native.Mathlib.Omega.{arith}

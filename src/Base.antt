-- ===== src/Base.antt =====
-- What the other modules share: library names passed on, tests, texts, dictionaries, and the
-- actions that stand for methods with an error result.
mod Logic
mod Text
mod Lists
mod Dicts
mod Actions
mod Words
mod Ints
pub mod Keeps
mod Drivers
unfoldable pub use Logic.*
unfoldable pub use Text.*
unfoldable pub use Lists.*
unfoldable pub use Dicts.*
unfoldable pub use Actions.*
unfoldable pub use Words.*
unfoldable pub use Ints.*
unfoldable pub use Drivers.*
pub use Prim.Native.Nat.{ℕ, zero, suc, ◌+◌, ◌-◌, ◌*◌, ◌/◌, ◌%◌, ◌^◌, ◌≤◌, ◌<◌}
pub use Prim.Native.String.{String}
pub use mathlib.Core.Path.{◌≡◌, refl, sym, ap, ◌∙◌}
pub use mathlib.Core.Logic.{◌≢◌, ◌↔◌, ◌⊎◌, inl, inr}
pub use mathlib.Core.Bool.{Bool, true, false, not, ◌&&◌, ◌||◌}
pub use mathlib.Core.Option.{Option, none, some}
pub use mathlib.Core.List.{List, [], ◌∷◌, ◌++◌}
pub use native.Mathlib.Omega.{arith}

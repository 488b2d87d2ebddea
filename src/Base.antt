-- ===== src/Base.antt =====
-- The names that all modules share: those of the libraries, and children with tests on values, lists
-- measured by native numbers, Go's integers, errors, maps and strings, and calls that change a state
-- and may fail.
mod Equality
mod Lists
mod Errors
pub mod Exec
pub mod Proc
mod Int
mod Maps
mod Strings
unfoldable pub use Equality.*
pub use Strings.Laws.*
pub use Lists.*
unfoldable pub use Errors.*
unfoldable pub use Int.*
unfoldable pub use Maps.*
unfoldable pub use Strings.*
pub use Prim.Native.Nat.{ℕ, zero, suc, ◌+◌, ◌-◌, ◌≤◌, ◌<◌}
pub use mathlib.Core.Path.{◌≡◌, refl, sym, ap, ap₂, ◌∙◌}
pub use mathlib.Core.Logic.{◌≢◌, ◌↔◌, ◌⊎◌, inl, inr}
pub use mathlib.Core.Bool.{Bool, true, false, not, ◌&&◌, ◌||◌}
pub use mathlib.Core.Option.{Option, none, some}
pub use mathlib.Core.List.{List, [], ◌∷◌, ◌++◌, map, append_assoc, append-nil}
pub use native.Mathlib.Omega.{arith}

-- ===== src/Base.antt =====
-- What the other modules share: names of the libraries, Boolean tests, lists, results and tables.
mod Tests
mod Lists
mod Results
mod Tables
mod Texts
mod Sorting
mod Updates
mod Keys
mod Selections
mod Counts
pub use Tests.*
pub use Lists.*
pub use Selections.*
pub use Counts.*
pub use Keys.*
pub use Updates.*
pub use Results.*
unfoldable pub use Tables.*
unfoldable pub use Sorting.*
unfoldable pub use Texts.*
pub use Prim.Native.Nat.{ℕ, zero, suc, ◌+◌, ◌-◌, ◌*◌, ◌^◌, ◌≤◌, ◌<◌, min, max}
pub use Prim.Native.String.{String}
pub use mathlib.Core.Path.{◌≡◌, refl, sym, ap, ◌∙◌}
pub use mathlib.Core.Logic.{◌≢◌, ◌↔◌, ◌⊎◌, inl, inr}
pub use mathlib.Core.Bool.{Bool, true, false, ◌&&◌, ◌||◌, not}
pub use mathlib.Core.Option.{Option, none, some}
pub use mathlib.Core.List.{List, [], ◌∷◌, ◌++◌, map}
pub use native.Mathlib.Omega.{arith}
pub use text.Mathlib.Text.{◌==◌ as str_eq}
pub use text.Mathlib.TextEquality.{eq_iff}

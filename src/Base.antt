-- ===== src/Base.antt =====
-- The names that the other modules share: library names passed on, and the children's.
mod Tests
mod Lists
mod Int
mod Keys
pub mod Dict
pub mod Ascending
pub mod Strings
pub mod Strconv
pub use Tests.*
pub use Lists.*
unfoldable pub use Int.*
pub use Strings.{Text, codes, text_key}
pub use Keys.*
pub use Prim.Native.Nat.{ℕ, zero, suc, ◌+◌, ◌-◌, ◌*◌, ◌/◌, ◌%◌, ◌^◌, ◌≤◌, ◌<◌}
pub use Prim.Native.String.{String}
pub use mathlib.Core.Path.{◌≡◌, refl, sym, ap, ◌∙◌}
pub use mathlib.Core.Logic.{◌≢◌, ◌↔◌, ◌⊎◌, inl, inr}
pub use mathlib.Core.Bool.{Bool, true, false, not, ◌&&◌, ◌||◌}
pub use mathlib.Core.Option.{Option, none, some}
pub use mathlib.Core.List.{List, [], ◌∷◌, ◌++◌, map}
pub use native.Mathlib.Omega.{arith}

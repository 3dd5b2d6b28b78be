-- ===== src/Base.antt =====
-- What the modules share: names of the libraries passed on, the Boolean tests on native numbers,
-- lists indexed by native numbers (C arrays), C strings and the C `int`.
pub mod Int
pub mod Lists
pub mod Fault
pub mod Strings
pub mod Tests
pub use Fault.*
pub use Int.*
pub use Lists.*
unfoldable pub use Strings.*
pub use Tests.*
pub use Prim.Native.Nat.{ℕ, zero, suc, ◌+◌, ◌-◌, ◌*◌, ◌/◌, ◌%◌, ◌^◌, ◌≤◌, ◌<◌}
pub use mathlib.Core.Path.{◌≡◌, refl, sym, ap, ◌∙◌, subst}
pub use mathlib.Core.Logic.{◌≢◌, ◌↔◌, ◌⊎◌, inl, inr}
pub use mathlib.Core.Bool.{Bool, true, false, ◌&&◌, ◌||◌, not}
pub use mathlib.Core.Option.{Option, none, some}
pub use mathlib.Core.List.{List, [], ◌∷◌, ◌++◌, map}
pub use native.Mathlib.Omega.{arith}

-- ===== src/Prelude.antt =====
-- The names that every module shares: the libraries' own, passed on, with tests on numbers,
-- equality by instances, and the lists and sets that the program's code walks through.
mod Tests
mod Lists
mod Equality
mod Sets
mod Text
mod Members
mod Table
pub use Tests.*
pub use Lists.*
pub use Equality.*
pub use Sets.*
pub use Text.*
pub use Members.*
pub use Table.*
pub use Prim.Native.Nat.{ℕ, zero, suc, ◌+◌, ◌-◌, ◌*◌, ◌/◌, ◌%◌, ◌≤◌, ◌<◌}
pub use Prim.Native.String.{String}
pub use mathlib.Core.Path.{◌≡◌, refl, sym, ap, ◌∙◌, subst}
pub use mathlib.Core.Logic.{◌≢◌, ◌↔◌, ◌⊎◌, inl, inr}
pub use mathlib.Core.Bool.{Bool, true, false, ◌&&◌, ◌||◌, not}
pub use mathlib.Core.Option.{Option, none, some}
pub use mathlib.Core.List.{List, [], ◌∷◌, ◌++◌, map}
pub use native.Mathlib.Omega.{arith}

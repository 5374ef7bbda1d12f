-- ===== src/Base.antt =====
-- The names that the other modules share: those of the libraries, and Boolean tests, lists measured
-- by native numbers, machine words and association maps from the children.
mod Tests
mod Lists
mod Maps
mod Types
pub mod U256
pub mod Partial
pub mod Texts
pub mod Same
pub use Tests.*
pub use Lists.*
pub use Maps.*
pub use Types.*
pub use Prim.Native.Nat.{ℕ, zero, suc, ◌+◌, ◌-◌, ◌*◌, ◌/◌, ◌%◌, ◌^◌, ◌≤◌, ◌<◌, min, max}
pub use mathlib.Core.Path.{◌≡◌, refl, sym, ap, ◌∙◌}
pub use mathlib.Core.Logic.{◌≢◌, ◌↔◌, ◌⊎◌, inl, inr}
pub use mathlib.Core.Bool.{Bool, true, false, not, ◌&&◌, ◌||◌}
pub use mathlib.Core.Option.{Option, none, some}
pub use mathlib.Core.List.{List, [], ◌∷◌, ◌++◌, map}
pub use native.Mathlib.Omega.{arith}

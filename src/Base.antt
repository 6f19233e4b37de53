-- ===== src/Base.antt =====
-- What the modules share: library names passed on, Boolean tests, lists over the native numbers,
-- byte strings, tables (`std::unordered_map`) and the outcome of code that may abort.
mod Tests
mod Lists
mod Aborts
mod Tables
mod Sizes
pub use Tests.*
pub use Lists.*
pub use Aborts.*
pub use Tables.*
pub use Sizes.*
pub use Prim.Native.Nat.{ℕ, zero, suc, ◌+◌, ◌-◌, ◌*◌, ◌/◌, ◌%◌, ◌^◌, ◌≤◌, ◌<◌}
pub use mathlib.Core.Path.{◌≡◌, refl, sym, ap, ◌∙◌}
pub use mathlib.Core.Logic.{◌≢◌, ◌↔◌, ◌⊎◌, inl, inr}
pub use mathlib.Core.Bool.{Bool, true, false, ◌&&◌, ◌||◌}
pub use mathlib.Core.Option.{Option, none, some, some-injective, none-ne-some}
pub use mathlib.Core.List.{List, [], ◌∷◌, ◌++◌, map}
pub use native.Mathlib.Omega.{arith}

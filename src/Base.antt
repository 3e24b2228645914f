-- ===== src/Base.antt =====
-- Shared names: the library's, passed on, and those of the children (tests on numbers and texts,
-- lists over the native numbers, Python's dict and its signed integers).
mod Tests
mod Lists
pub mod Dict
pub mod Int
pub mod Json
pub mod Python
pub mod Result
pub mod Sets
pub mod Slices
pub mod Sort
pub mod Text
pub mod Unique
pub use Tests.*
pub use Lists.*
pub use Prim.Native.Nat.{ℕ, zero, suc, ◌+◌, ◌-◌, ◌*◌, ◌/◌, ◌%◌, ◌≤◌, ◌<◌, min, max}
pub use Prim.Native.String.{String}
pub use mathlib.Core.Path.{◌≡◌, refl, sym, ap, ◌∙◌}
pub use mathlib.Core.Logic.{◌≢◌, ◌↔◌, ◌⊎◌, inl, inr}
pub use mathlib.Core.Bool.{Bool, true, false, ◌&&◌, ◌||◌, not}
pub use mathlib.Core.Option.{Option, none, some}
pub use mathlib.Core.List.{List, [], ◌∷◌, ◌++◌, map}
pub use native.Mathlib.Omega.{arith}

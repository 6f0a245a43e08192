-- ===== src/Prelude.antt =====
-- Names that all modules share: the libraries', passed on, and those of the children. It models no
-- code: numbers, lists, byte strings and fallible results.
mod Tests
mod Lists
mod Slices
mod ByteString
mod Outcome
pub mod Int
pub mod Division
pub use Tests.*
pub use Lists.*
pub use Slices.*
pub use ByteString.*
pub use Outcome.*
pub use Prim.Native.Nat.{ℕ, zero, suc, ◌+◌, ◌-◌, ◌*◌, ◌/◌, ◌%◌, ◌^◌, ◌≤◌, ◌<◌, min, max}
pub use Prim.Native.String.{String}
pub use mathlib.Core.Path.{◌≡◌, refl, sym, ap, subst, ◌∙◌}
pub use mathlib.Core.Logic.{◌≢◌, ◌↔◌, ◌⊎◌, inl, inr}
pub use mathlib.Core.Bool.{Bool, true, false, not, ◌&&◌, ◌||◌}
pub use mathlib.Core.Option.{Option, none, some}
pub use mathlib.Core.List.{List, [], ◌∷◌, ◌++◌, map, append-nil, append_assoc}
pub use native.Mathlib.Omega.{arith}

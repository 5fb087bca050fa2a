-- ===== src/Base.antt =====
-- Names that the other modules share: the libraries', passed on, and those of the children, which
-- model the parts of Go's language and standard library that the program uses.
mod Tests
mod Text
mod Hex
mod Http
mod Monad
pub use Tests.*
unfoldable pub use Text.*
unfoldable pub use Hex.*
unfoldable pub use Http.*
pub use Monad.*
pub use Prim.Native.Nat.{ℕ, zero, suc, ◌+◌, ◌-◌, ◌*◌, ◌/◌, ◌%◌, ◌^◌, ◌≤◌, ◌<◌}
pub use Prim.Native.String.{String}
pub use mathlib.Core.Path.{◌≡◌, refl, sym, ap, ◌∙◌}
pub use mathlib.Core.Logic.{◌≢◌, ◌↔◌, ◌⊎◌, inl, inr}
pub use mathlib.Core.Bool.{Bool, true, false, not, ◌&&◌, ◌||◌}
pub use mathlib.Core.Option.{Option, none, some}
pub use mathlib.Core.List.{List, [], ◌∷◌, ◌++◌, map, reverse}
pub use native.Mathlib.Omega.{arith}

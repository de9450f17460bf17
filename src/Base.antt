-- ===== src/Base.antt =====
-- The names that the modules of the development share: those of the libraries, passed on, and
-- those of the children (tests on numbers, lists by native numbers, 32-bit words).
mod Tests
mod Lists
mod Word
mod Array
mod Monad
mod Memory
mod Spans
pub use Tests.*
pub use Lists.*
pub use Word.*
unfoldable pub use Memory.*
pub use Spans.*
unfoldable pub use Monad.*
unfoldable pub use Array.*
pub use Prim.Native.Nat.{ℕ, zero, suc, ◌+◌, ◌-◌, ◌*◌, ◌/◌, ◌%◌, ◌^◌, ◌≤◌, ◌<◌}
pub use mathlib.Core.Path.{◌≡◌, refl, sym, ap, ◌∙◌}
pub use mathlib.Core.Logic.{◌≢◌, ◌↔◌, ◌⊎◌, inl, inr}
pub use mathlib.Core.Bool.{Bool, true, false, not, ◌&&◌, ◌||◌}
pub use mathlib.Core.Option.{Option, none, some}
pub use mathlib.Core.List.{List, [], ◌∷◌, ◌++◌, map}
pub use native.Mathlib.Omega.{arith}

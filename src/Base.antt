-- ===== src/Base.antt =====
-- The names that the other modules share: those of the libraries, and of the children.
mod Tests
mod Lists
mod Memory
mod Int
mod Outcome
mod Text
mod Fds
mod Copy
pub use Tests.*
pub use Lists.*
pub use Memory.*
pub use Int.*
pub use Outcome.*
pub use Text.*
pub use Fds.*
pub use Copy.*
pub use Prim.Native.Nat.{ℕ, zero, suc, ◌+◌, ◌-◌, ◌*◌, ◌/◌, ◌%◌, ◌^◌, ◌≤◌, ◌<◌}
pub use mathlib.Core.Path.{◌≡◌, refl, sym, ap, ◌∙◌, subst}
pub use mathlib.Core.Logic.{◌≢◌, ◌↔◌, ◌⊎◌, inl, inr}
pub use mathlib.Core.Bool.{Bool, true, false, not, ◌&&◌, ◌||◌}
pub use mathlib.Core.Option.{Option, none, some}
pub use mathlib.Core.List.{List, [], ◌∷◌, ◌++◌, map}
pub use native.Mathlib.Omega.{arith}

abbrev pub Bytes : Type 0
Bytes = List ℕ

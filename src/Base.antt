-- ===== src/Base.antt =====
-- The names that the other modules share: the libraries' and those of the children.
mod Equality
mod Text
mod Go
mod Lists
mod Maps
mod Int
mod Triples
unfoldable pub use Equality.*
pub use Text.*
unfoldable pub use Go.*
pub use Lists.*
unfoldable pub use Maps.*
pub use Triples.*
pub use Int.*
pub use Prim.Native.Nat.{ℕ, zero, suc, ◌+◌, ◌-◌, ◌*◌, ◌%◌, ◌≤◌, ◌<◌}
pub use Prim.Native.String.{String}
pub use mathlib.Core.Path.{◌≡◌, refl, sym, ap, ◌∙◌, subst}
pub use mathlib.Core.Logic.{◌≢◌, ◌↔◌, ◌⊎◌, inl, inr}
pub use mathlib.Core.Bool.{Bool, true, false, not, ◌&&◌, ◌||◌}
pub use mathlib.Core.Option.{Option, none, some}
pub use mathlib.Core.List.{List, [], ◌∷◌, ◌++◌, map}
pub use native.Mathlib.Omega.{arith}

-- ===== src/Prelude.antt =====
-- The names that the other modules share: the libraries', passed on, and those of the children.
mod Tests
mod Lists
pub mod Int
mod Equal
mod Maps
pub mod Words
mod Perms
pub mod Text
pub mod Decimal
pub mod Outcomes
pub mod Runs
pub use Tests.*
pub use Lists.*
pub use Perms.*
pub use Equal.{KeyType, ◌==◌, nat_eq, int_eq, string_eq, ==→≡, ==_refl}
unfoldable pub use Maps.{lookup, insert}
pub use Maps.{lookup-insert, lookup-insert_self}
pub use Prim.Native.Nat.{ℕ, zero, suc, ◌+◌, ◌-◌, ◌*◌, ◌/◌, ◌%◌, ◌^◌, ◌≤◌, ◌<◌, max}
pub use Prim.Native.String.{String}
pub use mathlib.Core.Path.{◌≡◌, refl, sym, ap, subst, ◌∙◌}
pub use mathlib.Core.Logic.{◌≢◌, ◌↔◌, ◌⊎◌, inl, inr}
pub use mathlib.Core.Bool.{Bool, true, false, not, ◌&&◌, ◌||◌}
pub use mathlib.Core.Option.{Option, none, some}
pub use mathlib.Core.List.{List, [], ◌∷◌, ◌++◌, map}
pub use native.Mathlib.Omega.{arith}

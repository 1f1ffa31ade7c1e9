-- ===== src/Base.antt =====
-- The names that all modules share: the libraries', passed on, and those of the children. A C++
-- `char`, `std::string` and `ByteArray` are read as lists of byte values.
mod Tests
mod Lists
mod Text
pub mod Int
pub mod Ids
pub use Tests.*
pub use Lists.*
pub use Text.{Bytes, codes, same_iff, same_refl, Map, lookup-insert, lookup-erase}
unfoldable pub use native.Mathlib.Decide.{ℕ_discrete}
unfoldable pub use Text.{same, lookup, insert, erase}
pub use Prim.Native.Nat.{ℕ, zero, suc, ◌+◌, ◌-◌, ◌*◌, ◌/◌, ◌%◌, ◌^◌, ◌≤◌, ◌<◌, min}
pub use mathlib.Core.Path.{◌≡◌, refl, sym, ap, ap₂, subst, ◌∙◌}
pub use mathlib.Core.Logic.{◌≢◌, ◌↔◌, ◌⊎◌, inl, inr}
pub use mathlib.Core.Bool.{Bool, true, false, not, ◌&&◌, ◌||◌}
pub use mathlib.Core.Option.{Option, none, some}
pub use mathlib.Core.List.{List, [], ◌∷◌, ◌++◌, map, append-nil, append_assoc}
pub use native.Mathlib.Omega.{arith}

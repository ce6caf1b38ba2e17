-- ===== src/Base.antt =====
-- Names that every module shares: the libraries' names passed on, tests and lists over the native
-- numbers, byte strings, and signed integers. They stand for Go's built-in types and for the parts
-- of the packages strings, strconv and sort that the repository's Go code calls.
mod Tests
mod Lists
pub mod Text
pub mod Bits
pub mod Endian
pub mod Int
pub mod Scan
pub mod Dict
pub mod Hex
pub use Tests.*
pub use Lists.*
pub use Prim.Native.Nat.{ℕ, zero, suc, ◌+◌, ◌-◌, ◌*◌, ◌/◌, ◌%◌, ◌^◌, ◌≤◌, ◌<◌}
pub use mathlib.Core.Path.{◌≡◌, refl, sym, ap, ◌∙◌}
pub use mathlib.Core.Logic.{◌≢◌, ◌↔◌, ◌⊎◌, inl, inr}
pub use mathlib.Core.Bool.{Bool, true, false, not, ◌&&◌, ◌||◌}
pub use mathlib.Core.Option.{Option, none, some}
pub use mathlib.Core.List.{List, [], ◌∷◌, ◌++◌, map}
pub use native.Mathlib.Omega.{arith}

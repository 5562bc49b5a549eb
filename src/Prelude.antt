-- ===== src/Prelude.antt =====
-- Names that every module shares: the libraries', Boolean tests and list access over the native
-- numbers (`Prelude/Tests`, `Prelude/Cases`, `Prelude/Lists`), and the machine arithmetic of the firmware
-- (`Prelude/Words`, `Prelude/Bits`).
mod Tests
mod Lists
mod Words
mod Bits
mod Powers
mod Cases
pub use Tests.*
pub use Lists.*
pub use Words.*
pub use Bits.*
pub use Powers.*
pub use Cases.*
pub use Prim.Native.Nat.{
  ℕ, zero, suc, ◌+◌, ◌-◌, ◌*◌, ◌/◌, ◌%◌, ◌^◌, ◌≤◌, ◌<◌, min, max, bit_and, ◌∣◌,
}
pub use mathlib.Core.Path.{◌≡◌, refl, sym, ap, ap₂, ◌∙◌, subst}
pub use mathlib.Core.Logic.{◌≢◌, ◌↔◌, ◌⊎◌, inl, inr}
pub use mathlib.Core.Bool.{Bool, true, false, not, ◌&&◌, ◌||◌}
pub use mathlib.Core.Option.{Option, none, some}
pub use mathlib.Core.List.{List, [], ◌∷◌, ◌++◌, append-nil, append_assoc}
pub use native.Mathlib.Omega.{arith}

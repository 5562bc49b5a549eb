-- ===== src/Prelude/Words.antt =====
-- `uint8_t`, `uint16_t` and `uint32_t` arithmetic, with its wrap written out, and the saturating
-- addition of firmware/src/uart/saturating.h. `size_t` has 32 bits on both targets.
use Prim.Native.Nat.{ℕ, ◌+◌, ◌-◌, ◌%◌, ◌<◌, min}
use mathlib.Core.Path.{◌≡◌}
use native.Mathlib.Omega.{arith}
use pico_uart.Prelude.Tests.{ltb, if◌then◌else◌}

abbrev pub u32_mod : ℕ
u32_mod = 0x1_0000_0000

abbrev pub u32_max : ℕ
u32_max = 0xffff_ffff

abbrev pub u8 : ℕ → ℕ
u8 n = n % 0x100

abbrev pub u16 : ℕ → ℕ
u16 n = n % 0x1_0000

abbrev pub u32 : ℕ → ℕ
u32 n = n % 0x1_0000_0000

abbrev pub u64 : ℕ → ℕ
u64 n = n % 0x1_0000_0000_0000_0000

-- Wrapping `a + b` and `a - b`.
abbrev pub add32 : ℕ → ℕ → ℕ
add32 a b = (a + b) % 0x1_0000_0000

abbrev pub sub32 : ℕ → ℕ → ℕ
sub32 a b = (a + 0x1_0000_0000 - b) % 0x1_0000_0000

-- Wrapping `a - b` of `uint64_t`.
abbrev pub sub64 : ℕ → ℕ → ℕ
sub64 a b = (a + 0x1_0000_0000_0000_0000 - b) % 0x1_0000_0000_0000_0000

-- `uart_saturating_add_u32`
abbrev pub saturating_add : ℕ → ℕ → ℕ
saturating_add value increment =
    if ltb (sub32 u32_max value) increment then u32_max else add32 value increment

pub saturating_add-eq-min :
    (a b : ℕ) → a < u32_mod → b < u32_mod → saturating_add a b ≡ min (a + b) u32_max
saturating_add-eq-min a b ha hb = ground arith

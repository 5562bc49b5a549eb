-- ===== src/LineCoding.antt =====
-- UART line settings: firmware/src/uart/line_coding.c and the type in firmware/src/uart/types.h.
-- A parity is a number, as the C enumeration is, so that the code's test of it has its meaning.
-- `uint64_t` products wrap at 2^64 (`u64`).
pub mod Laws
mod Tests
use pico_uart.Prelude.{
  true, leb, ◌!=◌, ◌||◌, false, none, ltb, ◌&&◌, some, not, ◌*◌, ◌==◌, if◌then◌else◌, u64, Bool,
  Option, ℕ,
}

-- `uart_driver_line_coding_t`
pub record LineCoding : Type 0 where
  pub baud_rate : ℕ
  pub data_bits : ℕ
  pub stop_bits : ℕ
  pub parity : ℕ

abbrev pub parity_none : ℕ
parity_none = 0

abbrev pub parity_odd : ℕ
parity_odd = 1

abbrev pub parity_even : ℕ
parity_even = 2

abbrev pub baud_min : ℕ
baud_min = 50

abbrev pub baud_max : ℕ
baud_max = 3000000

abbrev pub pio_clocks_per_bit : ℕ
pio_clocks_per_bit = 8

abbrev pub pio_rx_clocks_per_bit : ℕ
pio_rx_clocks_per_bit = 32

abbrev pub pio_divider_min : ℕ
pio_divider_min = 1

abbrev pub pio_divider_max_exclusive : ℕ
pio_divider_max_exclusive = 65536

unfoldable pub is_valid : LineCoding → Bool
is_valid c =
    if ltb c.baud_rate baud_min || ltb baud_max c.baud_rate
    then false
    else if ltb c.data_bits 5 || ltb 8 c.data_bits
    then false
    else if c.stop_bits != 1 && c.stop_bits != 2
    then false
    else c.parity == parity_none || c.parity == parity_odd || c.parity == parity_even

-- `pio_baud_feasible_for_clocks_per_bit`
unfoldable pub pio_baud_feasible_for : ℕ → ℕ → ℕ → Bool
pio_baud_feasible_for baud_rate sys_hz ratio =
    let clocks_per_bit = u64 (ratio * baud_rate) in
    if baud_rate == 0 || sys_hz == 0
    then false
    else if ltb sys_hz (u64 (clocks_per_bit * pio_divider_min))
    then false
    else if leb (u64 (pio_divider_max_exclusive * clocks_per_bit)) sys_hz
    then false
    else true

unfoldable pub pio_baud_feasible : ℕ → ℕ → Bool
pio_baud_feasible baud_rate sys_hz = pio_baud_feasible_for baud_rate sys_hz pio_clocks_per_bit

unfoldable pub pio_rx_baud_feasible : ℕ → ℕ → Bool
pio_rx_baud_feasible baud_rate sys_hz = pio_baud_feasible_for baud_rate sys_hz pio_rx_clocks_per_bit

unfoldable pub pio_supported : LineCoding → ℕ → Bool
pio_supported c sys_hz =
    if not (is_valid c)
    then false
    else if c.data_bits != 8 || c.stop_bits != 1 || c.parity != parity_none
    then false
    else pio_baud_feasible c.baud_rate sys_hz && pio_rx_baud_feasible c.baud_rate sys_hz

-- The two translations of USB codes, `none` where the code refuses one.
unfoldable pub stop_bits_from_usb : ℕ → Option ℕ
stop_bits_from_usb code = if code == 0 then some 1 else if code == 2 then some 2 else none

unfoldable pub parity_from_usb : ℕ → Option ℕ
parity_from_usb code =
    if code == 0
    then some parity_none
    else if code == 1
    then some parity_odd
    else if code == 2
    then some parity_even
    else none

abbrev keep_valid : LineCoding → Option LineCoding
keep_valid c = if not (is_valid c) then none else some c

-- `none` is the `false` that leaves `*line_coding` alone.
unfoldable pub from_usb : ℕ → ℕ → ℕ → ℕ → Option LineCoding
from_usb bit_rate stop_bits parity data_bits = elim (stop_bits_from_usb stop_bits) [
  | none ↦ none
  | some stop ↦ elim (parity_from_usb parity) [
    | none ↦ none
    | some mode ↦
        keep_valid
          (record { baud_rate = bit_rate; data_bits = data_bits; stop_bits = stop; parity = mode })
  ]
]

-- The field-by-field comparison that the callers write out.
unfoldable pub same_line_coding : LineCoding → LineCoding → Bool
same_line_coding a b =
    a.baud_rate == b.baud_rate
    && a.data_bits == b.data_bits
    && a.stop_bits == b.stop_bits
    && a.parity == b.parity

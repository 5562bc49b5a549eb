-- ===== src/LineCoding/Laws.antt =====
-- What the validation and the translation of line settings accept.
use native.Mathlib.Nat.{div-lt_iff_lt-mul, le-div_iff_mul-le}
use pico_uart.Prelude.{◌/◌, arith, ◌*◌, ◌==◌, ◌↔◌, true, some, if◌then◌else◌, ◌<◌, ◌⊎◌, ℕ, ◌≡◌, ◌≤◌}
use pico_uart.LineCoding.{
  LineCoding, is_valid, from_usb, pio_supported, pio_baud_feasible_for, pio_baud_feasible,
  pio_rx_baud_feasible, stop_bits_from_usb, parity_from_usb, same_line_coding,
}

-- Settings within the shared bounds.
pub record Within (c : LineCoding) : Type 0 where
  pub baud_low : 50 ≤ c.baud_rate
  pub baud_high : c.baud_rate ≤ 3000000
  pub data_low : 5 ≤ c.data_bits
  pub data_high : c.data_bits ≤ 8
  pub stop : (c.stop_bits ≡ 1) ⊎ (c.stop_bits ≡ 2)
  pub parity : c.parity ≤ 2

pub is_valid_iff : (c : LineCoding) → (is_valid c ≡ true) ↔ Within c
unfolding is_valid
is_valid_iff c = (λ h. ground arith, λ w. ground arith)

-- The USB code of a number of stop bits.
abbrev pub usb_stop : ℕ → ℕ
usb_stop n = if n == 2 then 2 else 0

-- A USB request is accepted exactly if it spells settings within the bounds, and then gives those:
-- the translation inverts the spelling, and 1.5 stop bits and mark or space parity have none.
pub from_usb_iff :
    (bit_rate stop parity data_bits : ℕ) (c : LineCoding)
    → (from_usb bit_rate stop parity data_bits ≡ some c) ↔ (
        Within c
        × (bit_rate ≡ c.baud_rate)
        × (data_bits ≡ c.data_bits)
        × (stop ≡ usb_stop c.stop_bits)
        × (parity ≡ c.parity))
unfolding from_usb is_valid stop_bits_from_usb parity_from_usb
from_usb_iff bit_rate stop parity data_bits c = (λ h. ground arith, λ h. ground arith)

divider_range :
    (clocks sys_hz : ℕ)
    → 0 < clocks
    → ((1 ≤ sys_hz / clocks) ↔ (1 * clocks ≤ sys_hz))
      × ((sys_hz / clocks < 65536) ↔ (sys_hz < 65536 * clocks))
divider_range clocks sys_hz h = (le-div_iff_mul-le h, div-lt_iff_lt-mul h)

clocks_bound : (ratio baud_rate : ℕ) → ratio ≤ 32 → ratio * baud_rate ≤ 32 * baud_rate
clocks_bound ratio baud_rate h = grind arith

clocks_pos : (ratio baud_rate : ℕ) → 0 < ratio → 0 < baud_rate → 0 < ratio * baud_rate
clocks_pos ratio baud_rate h k = grind arith

-- A divider is feasible exactly if the whole part of clock over clocks per bit lies in [1, 65536).
pio_baud_feasible_iff :
    (baud_rate sys_hz ratio : ℕ)
    → 0 < ratio
    → ratio ≤ 32
    → baud_rate < 0x1_0000_0000
    → sys_hz < 0x1_0000_0000
    → (pio_baud_feasible_for baud_rate sys_hz ratio ≡ true) ↔ (
        (0 < baud_rate)
        × (1 ≤ sys_hz / (ratio * baud_rate))
        × (sys_hz / (ratio * baud_rate) < 65536))
unfolding pio_baud_feasible_for
pio_baud_feasible_iff baud_rate sys_hz ratio p q b s = (
  λ h.
      let rate : 0 < baud_rate = ground arith in
      let clocks = clocks_pos ratio baud_rate p rate in
      ground
        (arith, clocks_bound ratio baud_rate q, divider_range (ratio * baud_rate) sys_hz clocks),
  λ h. ground (
    arith,
    clocks_bound ratio baud_rate q,
    divider_range (ratio * baud_rate) sys_hz (clocks_pos ratio baud_rate p h.0),
  ),
)

-- The PIO backend takes exactly 8N1 within the shared bounds, at a rate whose receiver runs at
-- most as fast as the clock and whose transmitter's divider is below 65536.
pio_supported_iff :
    (c : LineCoding) (sys_hz : ℕ)
    → sys_hz < 0x1_0000_0000
    → (pio_supported c sys_hz ≡ true) ↔ (
        Within c
        × (c.data_bits ≡ 8)
        × (c.stop_bits ≡ 1)
        × (c.parity ≡ 0)
        × (32 * c.baud_rate ≤ sys_hz)
        × (sys_hz < 524288 * c.baud_rate))
unfolding pio_supported is_valid pio_baud_feasible pio_rx_baud_feasible pio_baud_feasible_for
pio_supported_iff c sys_hz s = (λ h. ground arith, λ h. ground arith)

pub same_line_coding_iff : (a b : LineCoding) → (same_line_coding a b ≡ true) ↔ (a ≡ b)
unfolding same_line_coding
same_line_coding_iff a b = (λ h. ground arith, λ h. ground arith)

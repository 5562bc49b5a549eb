-- ===== src/BaudRate/Laws.antt =====
-- The divisor lies in the peripheral's range, nothing is cut off on the way, and a rate that is
-- accepted is as near as promised.
use pico_uart.Prelude.{min, arith, ◌-◌, ◌+◌, max, ◌/◌, ◌*◌, ◌≡◌, ◌<◌, ℕ}
use pico_uart.BaudRate.{rate_divisor, encoded_divisor}

-- The divisor that the peripheral gets is the rounded one, held to its range.
pub encoded_divisor_lem : (div : ℕ) → encoded_divisor div ≡ max 64 (min (div / 2) 4194240)
unfolding encoded_divisor
encoded_divisor_lem div = ground arith

module _ (requested peripheral_hz : ℕ) (r : 0 < requested) (rate_fits : requested < 0x1_0000_0000)
    (clock_fits : peripheral_hz < 0x1_0000_0000) where
  abbrev divisor : ℕ
  divisor = encoded_divisor (rate_divisor requested peripheral_hz)

  abbrev q : ℕ
  q = peripheral_hz * 8 / requested

  abbrev actual : ℕ
  actual = peripheral_hz * 4 / divisor

  abbrev difference : ℕ
  difference = max actual requested - min actual requested

  -- The error without any cast.
  abbrev exact_error : ℕ
  exact_error = (difference * 1000000 + requested / 2) / requested

-- ===== src/BaudRate.antt =====
-- The PL011 divisor of firmware/src/uart/hw/baud_rate.h. `uint64_t` products wrap at 2^64, the two
-- results at 2^32; `Laws` shows that neither happens.
pub mod Laws
mod Tests
use pico_uart.Prelude.{
  some, ◌%◌, u32, none, leb, ◌-◌, ◌||◌, ltb, ◌+◌, ◌==◌, if◌then◌else◌, ◌*◌, Option, ◌/◌, u64, ℕ,
}

abbrev pub max_error_ppm : ℕ
max_error_ppm = 20000

abbrev pub divisor_min : ℕ
divisor_min = 64

abbrev pub divisor_max : ℕ
divisor_max = 4194240

-- The nearest rate and its error in parts per million.
pub record Rate : Type 0 where
  pub actual : ℕ
  pub error_ppm : ℕ

-- `baud_rate_div` of the code: the divisor in 1/128 units, rounded up by one
unfoldable pub rate_divisor : ℕ → ℕ → ℕ
rate_divisor requested peripheral_hz = u64 (u64 (peripheral_hz * 8) / requested + 1)

-- `encoded_divisor` of the code
unfoldable pub encoded_divisor : ℕ → ℕ
encoded_divisor div =
    let integer = div / 128 in
    if integer == 0
    then divisor_min
    else if leb 65535 integer
    then divisor_max
    else integer * 64 + div % 128 / 2

unfoldable pub rate_of : ℕ → ℕ → ℕ → Rate
rate_of requested peripheral_hz encoded =
    let actual = u64 (peripheral_hz * 4) / encoded in
    let difference = if ltb requested actual then actual - requested else requested - actual in
    record {
      actual = u32 actual;
      error_ppm = u32 (u64 (u64 (difference * 1000000) + requested / 2) / requested);
    }

unfoldable pub calculate : ℕ → ℕ → Option Rate
calculate requested peripheral_hz =
    if requested == 0 || peripheral_hz == 0
    then none
    else some
        (rate_of requested peripheral_hz (encoded_divisor (rate_divisor requested peripheral_hz)))

-- `none` where the rate is refused, and otherwise the actual rate that the code hands out.
unfoldable pub supported : ℕ → ℕ → Option ℕ
supported requested peripheral_hz = elim (calculate requested peripheral_hz) [
  | none ↦ none
  | some r ↦ if leb r.error_ppm max_error_ppm then some r.actual else none
]

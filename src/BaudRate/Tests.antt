-- ===== src/BaudRate/Tests.antt =====
-- The usual rates on a 125 MHz peripheral clock.
use pico_uart.BaudRate.Laws.{encoded_divisor_lem}
use pico_uart.Prelude.{◌/◌, min, max, ◌≡◌}
use pico_uart.BaudRate.{encoded_divisor}

encoded_divisor_lem_example : encoded_divisor 8681 ≡ max 64 (min (8681 / 2) 4194240)
encoded_divisor_lem_example = encoded_divisor_lem 8681

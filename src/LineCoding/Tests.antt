-- ===== src/LineCoding/Tests.antt =====
-- 115200 baud, 8N1, on a 125 MHz clock.
use pico_uart.LineCoding.Laws.{from_usb_iff, usb_stop, Within}
use pico_uart.Prelude.{◌↔◌, some, ◌≡◌}
use pico_uart.LineCoding.{LineCoding, from_usb}

abbrev common : LineCoding
common = record { baud_rate = 115200; data_bits = 8; stop_bits = 1; parity = 0 }

from_usb_iff_example : (from_usb 115200 0 0 8 ≡ some common) ↔ (
    Within common
    × (115200 ≡ common.baud_rate)
    × (8 ≡ common.data_bits)
    × (0 ≡ usb_stop common.stop_bits)
    × (0 ≡ common.parity))
from_usb_iff_example = from_usb_iff 115200 0 0 8 common

-- ===== src/Policy/Tests.antt =====
-- Runs of the shared decisions.
use pico_uart.Policy.Laws.{tx_transfer_bytes_lem}
use pico_uart.Prelude.{◌⊎◌, ◌*◌, ◌<◌, ◌≤◌, arith}
use pico_uart.Policy.{tx_transfer_bytes}

tx_transfer_bytes_lem_example :
    let n = tx_transfer_bytes 300 256 9600 10 20 in
    (n ≤ 300)
    × (n ≤ 256)
    × (0 < 300 → 0 < 256 → 0 < 9600 → 0 < 10 → 0 < 20 → 0 < n)
    × ((n ≤ 1) ⊎ (n * (1000 * 10) ≤ 9600 * 20))
tx_transfer_bytes_lem_example = tx_transfer_bytes_lem 300 256 9600 10 20 (omega arith)

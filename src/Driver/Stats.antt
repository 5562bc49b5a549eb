-- ===== src/Driver/Stats.antt =====
-- The statistics of a port for core 0: `uart_driver_port_stats` of firmware/src/uart/uart_driver.c.
-- The worker changes the port while core 0 reads it. `seen` is the port as each of core 0's readings
-- finds it: the readings of one attempt are numbered from `base` on, the first one of the sequence,
-- then one for each field, the three counters of the backend's own `stats` included, and the last one
-- of the sequence again.
use pico_uart.Prelude.{
  zero, ◌&&◌, ◌||◌, ◌!=◌, ◌%◌, if◌then◌else◌, ◌==◌, length, ◌+◌, true, suc, some, none, u16, Bool,
  ℕ, Option,
}
use pico_uart.Usb.{PortStats}
use pico_uart.Runtime.{Port, Ops}
use pico_uart.Ring.{Ring, high_watermark_of, overflow_count_of, pending_overflow_of}

-- `UART_DRIVER_STATS_SNAPSHOT_ATTEMPTS`
abbrev pub stats_snapshot_attempts : ℕ
stats_snapshot_attempts = 3

-- The readings of one attempt
abbrev pub readings : ℕ
readings = 10

-- A field of the ring behind a pointer that the backend gave before
abbrev pub of_ring : Option Ring → (Ring → ℕ) → ℕ
of_ring none field = 0
of_ring (some ring) field = field ring

-- `storage == NULL`
abbrev pub is_unready : Option Ring → Bool
is_unready none = true
is_unready (some ring) = length ring.storage == 0

module _ {B : Type 0} (ops : Ops B) where
  -- The fields of the candidate, each of them from a reading of its own.
  unfoldable pub candidate : (ℕ → B) → PortStats
  candidate at = record {
    uart_tx_bytes = (ops.stats (at 6)).uart_tx_bytes;
    uart_rx_bytes = (ops.stats (at 7)).uart_rx_bytes;
    tx_ring_high_watermark = u16 (of_ring (ops.tx_ring (at 1)) high_watermark_of);
    rx_ring_high_watermark = u16 (of_ring (ops.rx_ring (at 2)) high_watermark_of);
    tx_ring_overflow_count = of_ring (ops.tx_ring (at 3)) overflow_count_of;
    rx_ring_overflow_count = of_ring (ops.rx_ring (at 4)) overflow_count_of;
    rx_ring_pending_overflow_count = of_ring (ops.rx_ring (at 5)) pending_overflow_of;
    rx_error_count = (ops.stats (at 8)).rx_error_count;
  }

  unfoldable pub snapshot : (ℕ → Port B) → ℕ → ℕ → Option PortStats
  snapshot seen base zero = none
  snapshot seen base (suc attempts) =
      let first = (seen base).stats_sequence in
      let second = (seen (base + 9)).stats_sequence in
      let backend = (seen (base + 1)).backend in
      let rest = snapshot seen (base + readings) attempts in
      if first % 2 != 0
      then rest
      else if is_unready (ops.rx_ring backend) || is_unready (ops.tx_ring backend)
      then none
      else if first == second && second % 2 == 0
      then some (candidate (λ i. (seen (base + i)).backend))
      else rest

-- `uart_driver_port_stats`, for a port number in range
unfoldable pub driver_port_stats : {B : Type 0} → (ℕ → Port B) → Option PortStats
driver_port_stats seen = elim (seen 0).ops [
  | none ↦ none
  | some ops ↦ elim (ops.rx_ring (seen 0).backend) [
    | none ↦ none
    | some rx ↦ elim (ops.tx_ring (seen 0).backend) [
      | none ↦ none
      | some tx ↦ snapshot ops seen 0 stats_snapshot_attempts
    ]
  ]
]

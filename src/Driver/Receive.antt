-- ===== src/Driver/Receive.antt =====
-- The receive side of a port for core 0: `uart_driver_drain_rx` and `uart_driver_recover_rx` of
-- firmware/src/uart/uart_driver.c. The code works on the ring through the pointer that the backend
-- returns; `put_ring` writes the ring back. What the producer does while a snapshot is copied is a
-- parameter.
use pico_uart.Prelude.{◌==◌, ◌||◌, not, if◌then◌else◌, some, false, Bool, none, ℕ, Option, List}
use pico_uart.Runtime.{Port}
use pico_uart.Ring.{Ring}
use pico_uart.Bridge.{drain_rx, recover_rx}
use pico_uart.Driver.{backend_is_initialized}

module _ {B : Type 0} where
  unfoldable pub rx_snapshot_is_current : Port B → ℕ → Bool
  rx_snapshot_is_current port consumer_sequence = elim port.ops [
    | none ↦ false
    | some ops ↦ ops.rx_snapshot_is_current port.backend consumer_sequence
  ]

  unfoldable pub rx_ring_of : Port B → Option Ring
  rx_ring_of port = elim port.ops [ none ↦ none | some ops ↦ ops.rx_ring port.backend ]

  unfoldable pub drain_port :
      {U : Type 0}
      → (B → Ring → B)
      → (U → List ℕ → U × ℕ)
      → (Port B × U → Ring → (Port B × U) × Ring)
      → ℕ
      → ℕ
      → ℕ
      → Port B × U
      → (Port B × U) × ℕ
  drain_port put_ring writer during_copy rounds capacity snapshot_capacity (port, u) =
      elim (rx_ring_of port) [
        | none ↦ ((port, u), 0)
        | some ring ↦
            let ((ring', (port', u')), count) =
              drain_rx (λ (p, v) bytes. ((p, (writer v bytes).0), (writer v bytes).1))
                (λ (p, v). rx_snapshot_is_current p) (λ (p, v). p.stats_sequence) during_copy rounds
                capacity snapshot_capacity (ring, (port, u)) in
            if not (backend_is_initialized port) || snapshot_capacity == 0
            then ((port, u), 0)
            else ((record port' { backend = put_ring port'.backend ring' }, u'), count)
      ]

  unfoldable pub recover_port : (B → Ring → B) → Port B → Port B × ℕ
  recover_port put_ring port = elim (rx_ring_of port) [
    | none ↦ (port, 0)
    | some ring ↦
        let (ring', count) = recover_rx ring in
        if not (backend_is_initialized port)
        then (port, 0)
        else (record port { backend = put_ring port.backend ring' }, count)
  ]

-- ===== src/Driver/Lifecycle.antt =====
-- The worker's side of starting and stopping a port: `uart_driver_service_channel_lifecycle` of
-- firmware/src/uart/uart_driver.c, one port's round of its loop.
use pico_uart.Plane.{is_null_ops}
use pico_uart.Control.Flags.{status_control_pending, status_init_failed, raise, status_ready, lower}
use pico_uart.Runtime.{Clock, Pending, Port}
use pico_uart.Prelude.{none, some, true, ◌&&◌, ◌+◌, ◌||◌, not, false, ℕ, if◌then◌else◌, add32, Bool}
use pico_uart.Control.{reset}
use pico_uart.Plane.Service.{start_port}

-- `(uart_control_pending_t){0}`
abbrev pub zero_pending : Pending
zero_pending = record {
  pending = false;
  control_generation = 0;
  tx_boundary_sequence = 0;
  deadline = 0;
  line_coding = record { baud_rate = 0; data_bits = 0; stop_bits = 0; parity = 0 };
}

module _ {B : Type 0} where
  unfoldable pub begin_stats_update : Port B → Port B
  begin_stats_update port = record port { stats_sequence = add32 port.stats_sequence 1 }

  unfoldable pub end_stats_update : Port B → Port B
  end_stats_update port = record port { stats_sequence = add32 port.stats_sequence 1 }

  -- The backend's part of a stop.
  unfoldable pub stop_backend : Port B → Port B
  stop_backend port = elim port.ops [
    | none ↦ port
    | some ops ↦
        if ops.is_initialized port.backend
        then end_stats_update
            (record (begin_stats_update port) { backend = ops.deinit port.backend })
        else port
  ]

  -- The critical section after it.
  unfoldable pub reset_stopped : Port B → Port B
  reset_stopped port =
      let flags = lower port.status_flags (status_ready + status_init_failed) in
      record port {
        mailbox = reset port.mailbox;
        worker = zero_pending;
        lifecycle = record port.lifecycle { stop_pending = false; usb_quiesced = false };
        status_flags = if not port.soft_pending then lower flags status_control_pending else flags;
      }

  -- The section that takes a start request, unless a stop has come.
  unfoldable pub consume_start : Port B → Bool × Port B
  consume_start port =
      if not port.lifecycle.start_pending || port.lifecycle.stop_pending
      then (false, port)
      else (true, record port { lifecycle = record port.lifecycle { start_pending = false } })

  unfoldable pub clear_baseline : Bool → Port B → Port B
  clear_baseline lifecycle_ok port = elim port.ops [
    | none ↦ port
    | some ops ↦
        if lifecycle_ok
        then record port { backend = ops.clear_rx_error_baseline port.backend }
        else port
  ]

  unfoldable pub start_channel : Clock → ℕ → Port B → Bool × Port B
  start_channel clock port_id port =
      let (ok, p1) = start_port clock port_id (begin_stats_update port) in
      if is_null_ops port.ops then (false, port) else (ok, end_stats_update (clear_baseline ok p1))

  -- The last section: the outcome, unless a newer request has come.
  unfoldable pub publish_started : Bool → Port B → Port B
  publish_started lifecycle_ok port =
      if port.lifecycle.stop_pending || port.lifecycle.start_pending
      then port
      else if lifecycle_ok
      then record port {
        status_flags = raise (lower port.status_flags status_init_failed) status_ready;
      }
      else record port {
        status_flags = lower (raise port.status_flags status_init_failed) status_ready;
      }

  unfoldable pub service_start : Clock → ℕ → Port B → Port B
  service_start clock port_id port =
      let (starts, p1) = consume_start port in
      let (ok, p2) = start_channel clock port_id p1 in if starts then publish_started ok p2 else p1

  unfoldable pub service_lifecycle : Clock → ℕ → Port B → Port B
  service_lifecycle clock port_id port =
      let stop = port.lifecycle.stop_pending in
      if not stop && not port.lifecycle.start_pending
      then port
      else if stop && not port.lifecycle.usb_quiesced
      then port
      else service_start clock port_id (if stop then reset_stopped (stop_backend port) else port)

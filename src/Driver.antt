-- ===== src/Driver.antt =====
-- The driver: firmware/src/uart/uart_driver.c. This file has the calls that core 0 makes for one
-- port. Each is one critical section under the status lock, and takes the port; the code refuses a
-- port number from `UART_PORT_COUNT` on before, and the lock is there once the driver has started.
pub mod Receive
pub mod Stats
pub mod Lifecycle
pub mod Starts
pub mod Steady
pub mod Outcome
pub mod Opening
pub mod Start
pub mod Sweep
pub mod Ownership
mod Tests
use pico_uart.Prelude.{
  none, some, ◌+◌, ◌||◌, ◌&&◌, true, not, false, Bool, add32, if◌then◌else◌, List, ℕ,
}
use pico_uart.LineCoding.{LineCoding, is_valid}
use pico_uart.Ring.{Ring}
use pico_uart.Control.{
  Slot, Request, can_publish, publish, has_pending_port, pending_should_clear, apply_reject_error,
  tx_should_block, completion_is_current,
}
use pico_uart.Control.Flags.{
  has, raise, lower, status_ready, status_init_failed, status_control_error, status_control_pending,
}
use pico_uart.Runtime.{other_error, Port, Clock, ControlError}
use pico_uart.Plane.{record_error, release_pending, is_null_ops}
use pico_uart.Plane.Service.{line_coding_acceptable}
use pico_uart.Bridge.{fill_tx}

module _ {B : Type 0} where
  unfoldable pub set_status_flag : ℕ → Port B → Port B
  set_status_flag flag port = record port { status_flags = raise port.status_flags flag }

  unfoldable pub clear_status_flag : ℕ → Port B → Port B
  clear_status_flag flag port = record port { status_flags = lower port.status_flags flag }

  unfoldable pub backend_is_initialized : Port B → Bool
  backend_is_initialized port = elim port.ops [
    | none ↦ false
    | some ops ↦ ops.is_initialized port.backend
  ]

  unfoldable pub port_is_ready : Port B → Bool
  port_is_ready port = has port.status_flags status_ready && backend_is_initialized port

  -- The flags that a stop clears at once: ready, init failed and control error.
  unfoldable pub request_channel_stop : Bool → Port B → Bool × Port B
  request_channel_stop worker_started port =
      let queued = not port.lifecycle.stop_pending in
      if not worker_started || is_null_ops port.ops then (false, port) else (
        queued,
        record port {
          control_generation = add32 port.control_generation 1;
          soft_pending = false;
          status_flags =
              raise
                (lower port.status_flags (status_ready + status_init_failed + status_control_error))
                status_control_pending;
          lifecycle = record {
            stop_pending = true;
            usb_quiesced = if queued then false else port.lifecycle.usb_quiesced;
            start_pending = false;
          };
        },
      )

  unfoldable pub request_channel_start : Bool → Port B → Bool × Port B
  request_channel_start worker_started port =
      if not worker_started || is_null_ops port.ops
      then (false, port)
      else (true, record port { lifecycle = record port.lifecycle { start_pending = true } })

  unfoldable pub channel_stop_usb_quiesced : Port B → Port B
  channel_stop_usb_quiesced port =
      if port.lifecycle.stop_pending
      then record port { lifecycle = record port.lifecycle { usb_quiesced = true } }
      else port

  unfoldable pub channel_stop_is_quiesced : Port B → Bool
  channel_stop_is_quiesced port = port.lifecycle.stop_pending && port.lifecycle.usb_quiesced

  unfoldable pub acceptable : Port B → LineCoding → Bool
  acceptable port c = is_valid c && line_coding_acceptable port c

  unfoldable pub report_control_error : Clock → ControlError → Port B → Port B
  report_control_error clock reason port =
      let (generation, flags) =
        apply_reject_error port.control_generation port.status_flags status_control_error in
      record (record_error clock reason port) {
        control_generation = generation;
        status_flags = flags;
      }

  -- The request that goes to the mailbox, with the boundary that the ring's producer is at.
  unfoldable pub publish_request : ℕ → LineCoding → ℕ → Ring → Port B → Bool × Port B
  publish_request port_id c control_generation tx_ring port =
      let request : Request = record {
        port_id = port_id;
        control_generation = control_generation;
        tx_boundary_sequence = tx_ring.producer;
        line_coding = c;
      } in
      if not (can_publish port.mailbox) then (false, port) else (
        true,
        record port {
          soft_pending = false;
          status_flags = raise port.status_flags status_control_pending;
          mailbox = (publish port.mailbox request).1;
        },
      )

  unfoldable pub queue_accepted : ℕ → LineCoding → ℕ → Port B → Bool × Port B
  queue_accepted port_id c control_generation port = elim port.ops [
    | none ↦ (false, port)
    | some ops ↦ elim (ops.tx_ring port.backend) [
      | none ↦ (false, port)
      | some tx_ring ↦ publish_request port_id c control_generation tx_ring port
    ]
  ]

  unfoldable pub queue_line_coding : Bool → Clock → ℕ → LineCoding → ℕ → Port B → Bool × Port B
  queue_line_coding worker_started clock port_id c control_generation port =
      if not worker_started
      then (false, port)
      else if not (acceptable port c)
      then (false, report_control_error clock other_error port)
      else queue_accepted port_id c control_generation port

  unfoldable pub port_tx_is_blocked : Port B → Bool
  port_tx_is_blocked port = tx_should_block port.status_flags status_control_pending

  unfoldable pub report_soft_pending_error : Clock → ℕ → ℕ → ControlError → Port B → Port B
  report_soft_pending_error clock port_id control_generation reason port =
      let p1 = record (record_error clock reason port) { soft_pending = false } in
      let p2 =
        if completion_is_current control_generation p1.control_generation
        then set_status_flag status_control_error p1
        else p1 in
      release_pending port_id p2.worker.pending p2

  unfoldable pub reset_soft_pending : ℕ → Port B → Port B
  reset_soft_pending port_id port =
      release_pending port_id port.worker.pending (record port { soft_pending = false })

  unfoldable pub mark_control_pending : Port B → ℕ × Port B
  mark_control_pending port =
      let generation = add32 port.control_generation 1 in
      (
        generation,
        record port {
          control_generation = generation;
          soft_pending = true;
          status_flags =
              lower (raise port.status_flags status_control_pending) status_control_error;
        },
      )

  -- Bytes go into the transmit ring only while no control change holds the port; `put_ring` writes
  -- through the pointer that `tx_ring` returns.
  unfoldable pub fill_port :
      {S : Type 0} → (B → Ring → B) → (S → ℕ → S × List ℕ) → ℕ → ℕ → Port B × S → (Port B × S) × ℕ
  fill_port put_ring reader rounds capacity (port, s) = elim port.ops [
    | none ↦ ((port, s), 0)
    | some ops ↦ elim (ops.tx_ring port.backend) [
      | none ↦ ((port, s), 0)
      | some ring ↦
          let ((ring', s'), count) = fill_tx reader rounds capacity (ring, s) in
          if not (ops.is_initialized port.backend) || port_tx_is_blocked port
          then ((port, s), 0)
          else ((record port { backend = put_ring port.backend ring' }, s'), count)
    ]
  ]

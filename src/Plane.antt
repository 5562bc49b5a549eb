-- ===== src/Plane.antt =====
-- The control plane: firmware/src/uart/control/plane.c. A function of the code that works on the
-- port `port_id` takes the port; the pointers of `uart_control_plane_t` are not null. A critical
-- section of the code is one update. The service-load notes are left out.
pub mod Service
pub mod Finish
pub mod Flags
use pico_uart.Prelude.{
  ◌!=◌, ◌&&◌, ◌||◌, none, ltb, not, some, Option, Bool, false, if◌then◌else◌, true, ℕ, leb,
}
use pico_uart.LineCoding.{LineCoding, is_valid, same_line_coding, baud_min, baud_max, parity_none}
use pico_uart.Ring.{Ring}
use pico_uart.Control.{
  Slot, Request, zero_request, take_request, has_pending_port, pending_should_clear,
  apply_completion_error, tx_boundary_drained, worker_should_set_deadline, completion_is_current,
}
use pico_uart.Control.Flags.{
  has, raise, lower, status_ready, status_init_failed, status_control_error, status_control_pending,
}
use pico_uart.Runtime.{
  hw_backend, Ops, BackendKind, Port, Clock, ControlError, baud_error, framing_error, backend_error,
  pio_backend,
}

-- `UART_CONTROL_PLANE_APPLY_TIMEOUT_MS`
abbrev pub apply_timeout_ms : ℕ
apply_timeout_ms = 1000

-- `info.backend == UART_DRIVER_BACKEND_PIO`
abbrev pub is_pio : BackendKind → Bool
is_pio pio_backend = true
is_pio hw_backend = false

abbrev pub is_null_ops : {B : Type 0} → Option (Ops B) → Bool
is_null_ops none = true
is_null_ops (some ops) = false

unfoldable pub ring_drained : Option Ring → ℕ → Bool
ring_drained none boundary = false
ring_drained (some ring) boundary = tx_boundary_drained ring.consumer boundary

module _ {B : Type 0} where
  unfoldable pub line_coding_error : Port B → LineCoding → ControlError
  line_coding_error port c =
      if ltb c.baud_rate baud_min || ltb baud_max c.baud_rate
      then baud_error
      else if not (is_valid c)
      then framing_error
      else if is_null_ops port.ops
      then backend_error
      else if is_pio port.info.backend
          && (c.data_bits != 8 || c.stop_bits != 1 || c.parity != parity_none)
      then framing_error
      else baud_error

  unfoldable pub record_error : Clock → ControlError → Port B → Port B
  record_error clock reason port = record port {
    history = record { reason = reason; uptime_us = clock.uptime_us };
  }

  -- `CONTROL_PENDING` is cleared unless the soft request, the mailbox or the worker holds it.
  unfoldable pub release_pending : ℕ → Bool → Port B → Port B
  release_pending port_id worker_pending port =
      if pending_should_clear port.soft_pending (has_pending_port port.mailbox port_id)
        worker_pending
      then record port { status_flags = lower port.status_flags status_control_pending }
      else port

  unfoldable pub complete_error : ℕ → Bool → Port B → Port B
  complete_error control_generation success port = record port {
    status_flags =
        apply_completion_error port.status_flags status_control_error control_generation
          port.control_generation success;
  }

  -- The info of the port with a new line coding.
  unfoldable pub publish_info : LineCoding → Port B → Port B
  publish_info c port = record port { info = record port.info { line_coding = c } }

  unfoldable pub publish_applied : Bool → Option LineCoding → Port B → Port B
  publish_applied success none port = port
  publish_applied success (some c) port = if success then publish_info c port else port

  unfoldable pub end_worker_pending : Port B → Port B
  end_worker_pending port = record port { worker = record port.worker { pending = false } }

  unfoldable pub finish_worker_control :
      Clock → ℕ → ℕ → Bool → Option LineCoding → ControlError → Port B → Port B
  finish_worker_control clock port_id control_generation success applied error port =
      let p1 = publish_applied success applied port in
      let p2 = if not success then record_error clock error p1 else p1 in
      complete_error control_generation success
        (release_pending port_id false (end_worker_pending p2))

  unfoldable pub finish_mailbox_control :
      Clock → ℕ → ℕ → Bool → Bool → ℕ → Bool → ControlError → Port B → Port B
  finish_mailbox_control clock port_id control_generation success drop_provisional_pending
        worker_generation complete_worker error port =
      let p1 = if not success then record_error clock error port else port in
      let p2 = if drop_provisional_pending || complete_worker then end_worker_pending p1 else p1 in
      let p3 = if complete_worker then complete_error worker_generation true p2 else p2 in
      complete_error control_generation success (release_pending port_id p3.worker.pending p3)

  unfoldable pub set_worker_pending : ℕ → Port B → Port B
  set_worker_pending control_generation port =
      let flags = raise port.status_flags status_control_pending in
      record port {
        worker = record port.worker { pending = true; control_generation = control_generation };
        status_flags =
            if completion_is_current control_generation port.control_generation
            then lower flags status_control_error
            else flags;
      }

  -- `uart_control_plane_tx_boundary_drained`
  unfoldable pub boundary_drained : Port B → ℕ → Bool
  boundary_drained port boundary = elim port.ops [
    | none ↦ false
    | some ops ↦ ring_drained (ops.tx_ring port.backend) boundary
  ]

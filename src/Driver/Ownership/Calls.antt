-- ===== src/Driver/Ownership/Calls.antt =====
-- Core 0's calls of firmware/src/uart/uart_driver.c keep a port's ownership.
use pico_uart.Ring.{Ring}
use pico_uart.LineCoding.{LineCoding}
use pico_uart.Control.{completion_is_current, apply_reject_error, can_publish, publish}
use pico_uart.Plane.{record_error, is_null_ops}
use pico_uart.Control.Flags.{status_control_error, lower, raise, lower_lem, raise_lem}
use pico_uart.Driver.{
  acceptable, set_status_flag, report_soft_pending_error, queue_line_coding, publish_request,
  queue_accepted, report_control_error, reset_soft_pending, channel_stop_usb_quiesced,
  mark_control_pending, request_channel_start, request_channel_stop,
}
use pico_uart.Runtime.{other_error, ControlError, Clock, Port}
use pico_uart.Prelude.{false, ◌||◌, not, refl, Bool, arith, ℕ}
use pico_uart.Driver.Ownership.{
  case-IsOwned, IsHeld, when-IsHeld, whose-IsOwned, release-IsOwned, IsOwned,
}

module _ {B : Type 0} {port_id : ℕ} {port : Port B} where
  pub mark-IsOwned : IsOwned port_id port → IsOwned port_id (mark_control_pending port).1
  unfolding mark_control_pending
  mark-IsOwned v =
      ground (
        arith,
        raise_lem port.status_flags 8,
        lower_lem (raise port.status_flags 8) 4 (omega arith),
      )

  pub reset_soft-IsOwned : IsOwned port_id port → IsOwned port_id (reset_soft_pending port_id port)
  unfolding reset_soft_pending
  reset_soft-IsOwned v = release-IsOwned _ (ground arith) refl

  pub stop-IsOwned :
      (started : Bool)
      → IsOwned port_id port
      → IsOwned port_id (request_channel_stop started port).1
  unfolding request_channel_stop
  stop-IsOwned started v =
      whose-IsOwned (not started || is_null_ops port.ops) _ _ v
        (ground (arith, raise_lem (lower port.status_flags 7) 8))

  pub start-IsOwned :
      (started : Bool)
      → IsOwned port_id port
      → IsOwned port_id (request_channel_start started port).1
  unfolding request_channel_start
  start-IsOwned started v = whose-IsOwned (not started || is_null_ops port.ops) _ _ v (ground arith)

  pub quiesce-IsOwned : IsOwned port_id port → IsOwned port_id (channel_stop_usb_quiesced port)
  unfolding channel_stop_usb_quiesced
  quiesce-IsOwned v = ground arith

  pub reject-IsOwned :
      (clock : Clock) (reason : ControlError)
      → IsOwned port_id port
      → IsOwned port_id (report_control_error clock reason port)
  unfolding report_control_error record_error apply_reject_error raise
  reject-IsOwned clock reason v = ground (arith, raise_lem port.status_flags 4)

  pub publish_request-IsOwned :
      (c : LineCoding) (g : ℕ) (ring : Ring)
      → IsOwned port_id port
      → IsOwned port_id (publish_request port_id c g ring port).1
  unfolding publish_request publish can_publish
  publish_request-IsOwned c g ring v =
      whose-IsOwned (not (can_publish port.mailbox)) _ _ v
        (ground (arith, raise_lem port.status_flags 8))

  queued-IsOwned :
      (c : LineCoding) (g : ℕ)
      → IsOwned port_id port
      → IsOwned port_id (queue_accepted port_id c g port).1
  unfolding queue_accepted
  queued-IsOwned c g v = case-IsOwned port.ops _ _ v (λ ops.
      case-IsOwned (ops.tx_ring port.backend) _ _ v (λ ring. publish_request-IsOwned c g ring v))

  pub queue-IsOwned :
      (started : Bool) (clock : Clock) (c : LineCoding) (g : ℕ)
      → IsOwned port_id port
      → IsOwned port_id (queue_line_coding started clock port_id c g port).1
  unfolding queue_line_coding
  queue-IsOwned started clock c g v = whose-IsOwned (not started) _ _ v (
      whose-IsOwned (not (acceptable port c)) _ _ (reject-IsOwned clock other_error v)
        (queued-IsOwned c g v))

  pub report_soft-IsOwned :
      (clock : Clock) (g : ℕ) (reason : ControlError)
      → IsOwned port_id port
      → IsOwned port_id (report_soft_pending_error clock port_id g reason port)
  unfolding report_soft_pending_error set_status_flag record_error
  report_soft-IsOwned clock g reason v =
      let cleared : Port B = record (record_error clock reason port) { soft_pending = false } in
      let c : IsHeld port_id cleared = ground arith in
      let r : IsHeld port_id (set_status_flag status_control_error cleared) =
        ground (arith, raise_lem port.status_flags 4) in
      release-IsOwned _ (when-IsHeld (completion_is_current g cleared.control_generation) r c) refl

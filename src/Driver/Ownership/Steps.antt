-- ===== src/Driver/Ownership/Steps.antt =====
-- One port between the two cores. Core 0 makes the driver's calls at any time. The worker on core 1
-- goes from one critical section to the next, and keeps in between what it has read: the loop bodies
-- of `uart_control_plane_service` and `uart_driver_service_channel_lifecycle`, begun in any order. Two
-- sections of one body that follow each other with no call between them, as where settings that the
-- backend already has are published and the request is ended, are one step.
mod Keep
pub mod Hold
pub mod Blocked
use pico_uart.Plane.{is_null_ops}
use pico_uart.Driver.Lifecycle.{
  publish_started, reset_stopped, stop_backend, consume_start, clear_baseline, end_stats_update,
  begin_stats_update,
}
use pico_uart.Driver.{
  channel_stop_is_quiesced, queue_line_coding, report_soft_pending_error, report_control_error,
  request_channel_start, request_channel_stop, channel_stop_usb_quiesced, reset_soft_pending,
  mark_control_pending,
}
use pico_uart.LineCoding.{LineCoding}
use pico_uart.Plane.Service.{
  answer_request, service_deferred, take_control, start_taken, take_initial,
}
use pico_uart.Control.{Request}
use pico_uart.Runtime.{ControlError, Port, Clock}
use pico_uart.Prelude.{if◌then◌else◌, false, ◌≡◌, ℕ, Bool}
use pico_uart.Driver.Ownership.{IsHeld, IsOwned, requested, blocked}

-- The calls that core 0 makes.
pub data UsbCall : Type 0 where
  mark_call reset_call quiesce_call : UsbCall
  stop_call start_call : Bool → UsbCall
  reject_call : Clock → ControlError → UsbCall
  soft_error_call : Clock → ℕ → ControlError → UsbCall
  queue_call : Bool → Clock → LineCoding → ℕ → UsbCall

-- The loop bodies that the worker begins.
pub data Body : Type 0 where
  mailbox_body deferred_body lifecycle_body : Body

-- Where the worker is between two critical sections.
pub data Worker : Type 0 where
  idle stopping starting : Worker
  answering : Request → Bool → Worker
  launching : Bool → Request → LineCoding → Worker
  publishing : Bool → Worker

-- No request holds the port, nothing blocks it, and no stop or start is asked for.
pub record IsQuiet {B : Type 0} (port : Port B) : Type 0 where
  pub none_requested : requested port ≡ false
  pub not_blocked : blocked port ≡ false
  pub not_stopping : port.lifecycle.stop_pending ≡ false
  pub not_quiesced : port.lifecycle.usb_quiesced ≡ false

-- The part of `start_channel` before the first critical section of `start_port`.
abbrev pub launch : {B : Type 0} → Port B → Port B × Worker
launch port =
    let (taken, request, p) = take_initial (begin_stats_update port) in
    if is_null_ops port.ops
    then (port, publishing false)
    else (p, launching taken request port.info.line_coding)

-- The part after it.
abbrev pub finish_launch :
    {B : Type 0} → Clock → ℕ → Bool → Request → LineCoding → Port B → Port B × Worker
finish_launch clock port_id taken request previous port =
    let (ok, p) = start_taken clock port_id taken request previous port in
    (end_stats_update (clear_baseline ok p), publishing ok)

module _ {B : Type 0} (port_id : ℕ) where
  unfoldable pub usb_call : UsbCall → Port B → Port B
  usb_call mark_call port = (mark_control_pending port).1
  usb_call reset_call port = reset_soft_pending port_id port
  usb_call quiesce_call port = channel_stop_usb_quiesced port
  usb_call (stop_call started) port = (request_channel_stop started port).1
  usb_call (start_call started) port = (request_channel_start started port).1
  usb_call (reject_call clock reason) port = report_control_error clock reason port
  usb_call (soft_error_call clock g reason) port =
      report_soft_pending_error clock port_id g reason port
  usb_call (queue_call started clock c g) port =
      (queue_line_coding started clock port_id c g port).1

  -- The worker's next section; `body` is the loop body that it begins when it is at `idle`.
  unfoldable pub work : Body → Clock → Clock → Port B → Worker → Port B × Worker
  work mailbox_body clock later port idle =
      let (taken, request, prior, p) = take_control port in
      (p, if taken then answering request prior else idle)
  work deferred_body clock later port idle = (service_deferred clock later port_id port, idle)
  work lifecycle_body clock later port idle =
      let (starts, p) = consume_start port in
      if channel_stop_is_quiesced port
      then (stop_backend port, stopping)
      else (p, if starts then starting else idle)
  work body clock later port (answering request prior) =
      (answer_request clock port_id request prior port, idle)
  work body clock later port stopping = (reset_stopped port, idle)
  work body clock later port starting = launch port
  work body clock later port (launching taken request previous) =
      finish_launch clock port_id taken request previous port
  work body clock later port (publishing ok) = (publish_started ok port, idle)

  -- One step of either core.
  pub data Step : Port B × Worker → Port B × Worker → Type 0 where
    core0 : (c : UsbCall) {port : Port B} {w : Worker} → Step (port, w) (usb_call c port, w)
    core1 :
        (body : Body) (clock later : Clock) {port : Port B} {w : Worker}
        → Step (port, w) (work body clock later port w)

  -- What the cores can reach from a port that no request holds.
  pub data Reach : Port B × Worker → Type 0 where
    quiet : {port : Port B} → IsQuiet port → Reach (port, idle)
    next : {s t : Port B × Worker} → Reach s → Step s t → Reach t

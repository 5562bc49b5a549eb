-- ===== src/Driver/Ownership/Steps/Keep.antt =====
-- Every step of either core keeps the ownership of the port; a call of core 0 leaves the worker's
-- request alone.
use pico_uart.Control.Flags.{status_ready, has}
use pico_uart.LineCoding.{LineCoding}
use pico_uart.Control.{Request}
use pico_uart.Driver.Lifecycle.{begin_stats_update, end_stats_update, clear_baseline}
use pico_uart.Plane.Service.{service_deferred}
use pico_uart.Plane.{is_null_ops, record_error, release_pending}
use pico_uart.Driver.{
  channel_stop_is_quiesced, set_status_flag, publish_request, queue_accepted, queue_line_coding,
  report_soft_pending_error, report_control_error, request_channel_start, request_channel_stop,
  channel_stop_usb_quiesced, reset_soft_pending, mark_control_pending,
}
use pico_uart.Runtime.{Clock, Port}
use pico_uart.Prelude.{not, add32, arith, if◌then◌else◌, ◌≡◌, Bool, ℕ, true, false}
use pico_uart.Prelude.{refl}
use pico_uart.Driver.Ownership.{ops-IsOwned, IsOwned, when-IsOwned}
use pico_uart.Driver.Ownership.Calls.{
  mark-IsOwned, reset_soft-IsOwned, quiesce-IsOwned, stop-IsOwned, start-IsOwned, reject-IsOwned,
  report_soft-IsOwned, queue-IsOwned,
}
use pico_uart.Driver.Ownership.Worker.{
  take_control-IsOwned, answer-IsOwned, reset_stopped-IsOwned, publish_started-IsOwned,
  start_taken-IsOwned, take_initial-IsOwned, consume_start-IsOwned, stop_backend-IsOwned,
  service_pending-IsOwned, stats-IsOwned, backend-IsOwned,
}
use pico_uart.Driver.Ownership.Steps.{
  finish_launch, launch, Body, UsbCall, Worker, usb_call, work, mark_call, reset_call, quiesce_call,
  stop_call, start_call, reject_call, soft_error_call, queue_call, idle, stopping, starting,
  answering, launching, publishing, mailbox_body, deferred_body, lifecycle_body,
}

module _ {B : Type 0} (port_id : ℕ) where
  pub usb_call-IsOwned :
      (c : UsbCall) {port : Port B}
      → IsOwned port_id port
      → IsOwned port_id (usb_call port_id c port)
  unfolding usb_call
  usb_call-IsOwned mark_call v = mark-IsOwned v
  usb_call-IsOwned reset_call v = reset_soft-IsOwned v
  usb_call-IsOwned quiesce_call v = quiesce-IsOwned v
  usb_call-IsOwned (stop_call started) v = stop-IsOwned started v
  usb_call-IsOwned (start_call started) v = start-IsOwned started v
  usb_call-IsOwned (reject_call clock reason) v = reject-IsOwned clock reason v
  usb_call-IsOwned (soft_error_call clock g reason) v = report_soft-IsOwned clock g reason v
  usb_call-IsOwned (queue_call started clock c g) v = queue-IsOwned started clock c g v

  pub usb_call-worker :
      (c : UsbCall) (port : Port B) → (usb_call port_id c port).worker ≡ port.worker
  unfolding usb_call mark_control_pending reset_soft_pending release_pending
      channel_stop_usb_quiesced request_channel_stop request_channel_start report_control_error
      record_error report_soft_pending_error queue_line_coding queue_accepted publish_request
      set_status_flag
  usb_call-worker mark_call port = refl
  usb_call-worker reset_call port = ground arith
  usb_call-worker quiesce_call port = ground arith
  usb_call-worker (stop_call started) port = ground arith
  usb_call-worker (start_call started) port = ground arith
  usb_call-worker (reject_call clock reason) port = ground arith
  usb_call-worker (soft_error_call clock g reason) port = ground arith
  usb_call-worker (queue_call started clock c g) port = ground arith

  either-IsOwned :
      {A : Type 0} (t : Bool) (p q : Port B × A)
      → IsOwned port_id p.0
      → IsOwned port_id q.0
      → IsOwned port_id (if t then p else q).0
  either-IsOwned true p q v w = v
  either-IsOwned false p q v w = w

  deferred-IsOwned :
      (clock later : Clock) {port : Port B}
      → IsOwned port_id port
      → IsOwned port_id (service_deferred clock later port_id port)
  unfolding service_deferred
  deferred-IsOwned clock later {port} v =
      let began = add32 port.stats_sequence 1 in
      when-IsOwned (not port.worker.pending) v (
        when-IsOwned (not (has port.status_flags status_ready)) v
          (stats-IsOwned _ (service_pending-IsOwned clock later (stats-IsOwned began v))))

  launch-IsOwned : {port : Port B} → IsOwned port_id port → IsOwned port_id (launch port).0
  unfolding begin_stats_update
  launch-IsOwned {port} v =
      either-IsOwned (is_null_ops port.ops) _ _ v
        (take_initial-IsOwned (stats-IsOwned (add32 port.stats_sequence 1) v))

  baseline-IsOwned :
      (ok : Bool) {port : Port B} → IsOwned port_id port → IsOwned port_id (clear_baseline ok port)
  unfolding clear_baseline
  baseline-IsOwned ok {port} v =
      ops-IsOwned port.ops _ _ v (λ ops. when-IsOwned ok (backend-IsOwned _ v) v)

  finish_launch-IsOwned :
      (clock : Clock) (taken : Bool) (request : Request) (c : LineCoding) {port : Port B}
      → IsOwned port_id port
      → IsOwned port_id (finish_launch clock port_id taken request c port).0
  unfolding end_stats_update
  finish_launch-IsOwned clock taken request c v =
      stats-IsOwned _ (baseline-IsOwned _ (start_taken-IsOwned clock taken request c v))

  pub work-IsOwned :
      (body : Body) (clock later : Clock) {port : Port B} (w : Worker)
      → IsOwned port_id port
      → IsOwned port_id (work port_id body clock later port w).0
  unfolding work
  work-IsOwned mailbox_body clock later idle v = take_control-IsOwned v
  work-IsOwned deferred_body clock later idle v = deferred-IsOwned clock later v
  work-IsOwned lifecycle_body clock later {port} idle v =
      either-IsOwned (channel_stop_is_quiesced port) _ _ (stop_backend-IsOwned v)
        (consume_start-IsOwned v)
  work-IsOwned body clock later (answering request prior) v = answer-IsOwned clock request prior v
  work-IsOwned body clock later stopping v = reset_stopped-IsOwned v
  work-IsOwned body clock later starting v = launch-IsOwned v
  work-IsOwned body clock later (launching taken request previous) v =
      finish_launch-IsOwned clock taken request previous v
  work-IsOwned body clock later (publishing ok) v = publish_started-IsOwned ok v

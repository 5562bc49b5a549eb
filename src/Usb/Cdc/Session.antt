-- ===== src/Usb/Cdc/Session.antt =====
-- The poll of the CDC side: the body of the loop of `usb_cdc_poll` for one interface, the loop, and
-- the resets of firmware/src/usb/usb_cdc.c. The worker of core 1 runs between the polls of the
-- interfaces, as the other steps on a port do.
use pico_uart.Prelude.{◌!=◌, false, ◌+◌, true, not, if◌then◌else◌, Bool, ℕ}
use pico_uart.Runtime.{backend_error}
use pico_uart.Usb.Cdc.{Link, Admission, start_pending, starting, running, apply_pending_line_coding}
use pico_uart.Usb.Cdc.Transfer.{World, bridge_usb_to_uart, bridge_uart_to_usb}
use pico_uart.Driver.{
  port_is_ready, channel_stop_usb_quiesced, channel_stop_is_quiesced, request_channel_start,
  report_control_error,
}
use pico_uart.Control.Flags.{has, status_control_pending, status_control_error, status_init_failed}

module _ {B U : Type 0} where
  abbrev pub enter : Admission → Link B U → Link B U
  enter admission link = record link { cdc = record link.cdc { admission = admission } }

  -- A session that was starting runs when the port is clean; `false` is a `continue` of the loop.
  unfoldable pub admit_run : Link B U → Bool × Link B U
  admit_run link = elim link.cdc.admission [
    | starting ↦
        if has link.port.status_flags
          (status_control_pending + status_control_error + status_init_failed)
        then (false, link)
        else (true, enter running link)
    | _ ↦ (true, link)
  ]

module _ {B U : Type 0} (w : World B U) where
  -- While a stop waits, the interface throws its FIFOs away, the receiving one once.
  unfoldable pub quiesce : Link B U → Link B U
  quiesce link =
      let usb = if link.cdc.reset_rx_flushed then link.usb else w.tud.read_flush link.usb in
      let (cleared, ok) = w.tud.write_clear usb in
      if channel_stop_is_quiesced link.port then link else record link {
        cdc = record link.cdc { reset_rx_flushed = true };
        usb = cleared;
        port = if ok then channel_stop_usb_quiesced link.port else link.port;
      }

  -- The step of a session that waits for its start: the settings go first, then the start.
  unfoldable pub admit_start : ℕ → Link B U → Bool × Link B U
  admit_start port_id link =
      let staged = apply_pending_line_coding w.worker_started w.clock port_id link in
      let (accepted, port) = request_channel_start w.worker_started staged.port in
      if staged.cdc.line_coding.pending
      then (false, staged)
      else if not accepted
      then (false, record staged { port = report_control_error w.clock backend_error staged.port })
      else (true, enter starting (record staged { port = port }))

  unfoldable pub bridge : Link B U → Link B U
  bridge link = bridge_uart_to_usb w (bridge_usb_to_uart w link)

  -- From `uart_driver_port_is_ready` on
  unfoldable pub serve : ℕ → Link B U → Link B U
  serve port_id link =
      let (runs, admitted) =
        admit_run (apply_pending_line_coding w.worker_started w.clock port_id link) in
      if not (port_is_ready link.port) then link else if runs then bridge admitted else admitted

  unfoldable pub serve_open : ℕ → Link B U → Link B U
  serve_open port_id link = elim link.cdc.admission [
    | start_pending ↦
        let (started, admitted) = admit_start port_id link in
        if started then serve port_id admitted else admitted
    | _ ↦ serve port_id link
  ]

  unfoldable pub poll_link : ℕ → Link B U → Link B U
  poll_link port_id link =
      if link.port.lifecycle.stop_pending
      then quiesce link
      else if not link.cdc.stats.opened
      then record link {
        usb = if w.tud.available link.usb != 0 then w.tud.read_flush link.usb else link.usb;
      }
      else serve_open port_id link

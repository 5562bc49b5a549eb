-- ===== src/Usb/Cdc.antt =====
-- The CDC side of the firmware: firmware/src/usb/usb_cdc.c, with firmware/src/usb/cdc_soft_pending.h.
-- This file has the state of one interface and the host's requests: the line settings that wait for
-- the driver's mailbox, and the callbacks. An absolute time is a number, and `nil_time` is 0. The
-- port that an interface serves stands beside the interface's own state.
pub mod Answers
pub mod Requests
pub mod Window
pub mod Transfer
pub mod Session
pub mod Alike
pub mod Carried
pub mod Gate
pub mod Reset
pub mod Events
pub mod Closing
pub mod Fair
mod Tests
pub mod Poll
use pico_uart.Plane.{is_pio}
use pico_uart.Prelude.{
  ◌!=◌, ◌||◌, some, ltb, ◌==◌, if◌then◌else◌, not, true, none, Bool, ◌&&◌, false, ℕ,
}
use pico_uart.Usb.{CdcStats}
use pico_uart.LineCoding.{LineCoding, from_usb, baud_min, baud_max, parity_none, same_line_coding}
use pico_uart.Platform.ServiceLoad.{Core, note}
use pico_uart.Driver.{
  request_channel_stop, mark_control_pending, acceptable, report_control_error, queue_line_coding,
  report_soft_pending_error, reset_soft_pending, channel_stop_usb_quiesced,
}
use pico_uart.Runtime.{
  PortInfo, baud_error, framing_error, backend_error, timeout_error, other_error, ControlError,
  Clock, Port,
}

-- `USB_CDC_FLUSH_LATENCY_US`, `USB_CDC_SOFT_PENDING_TIMEOUT_MS`
abbrev pub flush_latency_us : ℕ
flush_latency_us = 1000

abbrev pub soft_pending_timeout_ms : ℕ
soft_pending_timeout_ms = 1000

abbrev pub nil_time : ℕ
nil_time = 0

-- `usb_cdc_pending_line_coding_t`
pub record PendingCoding : Type 0 where
  pub pending : Bool
  pub control_generation : ℕ
  pub deadline : ℕ
  pub line_coding : LineCoding

-- `usb_cdc_admission_t`
pub data Admission : Type 0 where
  start_pending starting running : Admission

-- `usb_cdc_port_t`
pub record CdcPort : Type 0 where
  pub line_coding : PendingCoding
  pub stats : CdcStats
  pub tx_flush_deadline : ℕ
  pub admission : Admission
  pub reset_rx_flushed : Bool
  pub tx_flush_pending : Bool

-- An interface, its port, TinyUSB's FIFOs of the interface, and the load account of core 0.
pub record Link (B U : Type 0) : Type 0 where
  pub cdc : CdcPort
  pub port : Port B
  pub usb : U
  pub load : Core

unfoldable pub update_high_watermark : ℕ → ℕ → ℕ
update_high_watermark high_watermark occupancy =
    if ltb high_watermark occupancy
    then (if ltb 0xffff occupancy then 0xffff else occupancy)
    else high_watermark

unfoldable pub dtr_close_should_stop_channel : Bool → Bool → Bool
dtr_close_should_stop_channel was_open is_open = was_open && not is_open

unfoldable pub soft_pending_should_set_deadline : Bool → Bool → Bool
soft_pending_should_set_deadline was_pending same_request = not was_pending || not same_request

unfoldable pub time_nil : ℕ → Bool
time_nil t = t == nil_time

-- What a closing of the session, or a new session of the host, makes of the interface
unfoldable pub forget_session : CdcPort → CdcPort
forget_session cdc = record cdc {
  admission = start_pending;
  line_coding = record cdc.line_coding { pending = false; deadline = nil_time };
  tx_flush_pending = false;
  tx_flush_deadline = nil_time;
}

-- The reasons that `tud_cdc_line_coding_cb` gives: of a request that USB's codes do not allow, and
-- of one that the backend never takes.
unfoldable pub parse_reason : ℕ → ControlError
parse_reason bit_rate =
    if ltb bit_rate baud_min || ltb baud_max bit_rate then baud_error else framing_error

unfoldable pub backend_reason : PortInfo → LineCoding → ControlError
backend_reason info c =
    if is_pio info.backend && (c.data_bits != 8 || c.stop_bits != 1 || c.parity != parity_none)
    then framing_error
    else baud_error

module _ {B U : Type 0} where
  unfoldable pub arm_soft_pending : LineCoding → Link B U → Link B U
  arm_soft_pending c link =
      let pending = link.cdc.line_coding in
      let same_request = pending.pending && same_line_coding pending.line_coding c in
      let (generation, port) = mark_control_pending link.port in
      record link {
        cdc = record link.cdc {
          line_coding = record {
            pending = true;
            control_generation = generation;
            deadline =
                if soft_pending_should_set_deadline pending.pending same_request
                then nil_time
                else pending.deadline;
            line_coding = c;
          };
        };
        port = port;
      }

  unfoldable pub reject_line_coding : Clock → ControlError → Link B U → Link B U
  reject_line_coding clock reason link = record link {
    port = report_control_error clock reason link.port;
  }

  -- The request leaves the interface, and its port is as given.
  unfoldable pub drop_request : Port B → PendingCoding → Link B U → Link B U
  drop_request port pending link = record link {
    cdc = record link.cdc { line_coding = record pending { pending = false } };
    port = port;
    load = note link.load;
  }

  unfoldable pub apply_pending_line_coding : Bool → Clock → ℕ → Link B U → Link B U
  apply_pending_line_coding worker_started clock port_id link =
      let waiting = link.cdc.line_coding in
      let armed = record waiting {
        deadline =
            if time_nil waiting.deadline
            then clock.make_timeout_time_ms soft_pending_timeout_ms
            else waiting.deadline;
      } in
      let give_up = λ (reason : ControlError).
        report_soft_pending_error clock port_id waiting.control_generation reason link.port in
      let (queued, port) =
        queue_line_coding worker_started clock port_id waiting.line_coding
          waiting.control_generation link.port in
      if not waiting.pending
      then link
      else if clock.time_reached armed.deadline
      then drop_request (give_up timeout_error) armed link
      else if not (acceptable link.port waiting.line_coding)
      then drop_request (give_up other_error) armed link
      else if queued
      then drop_request port armed link
      else record link { cdc = record link.cdc { line_coding = armed }; port = port }

  -- `tud_cdc_line_state_cb`, for an interface in range
  unfoldable pub line_state_cb : Bool → ℕ → Bool → Link B U → Link B U
  line_state_cb worker_started port_id dtr link =
      let was_open = link.cdc.stats.opened in
      let forgotten = forget_session link.cdc in
      let (queued, port) =
        request_channel_stop worker_started (reset_soft_pending port_id link.port) in
      let opened_as = λ (cdc : CdcPort). record cdc { stats = record cdc.stats { opened = dtr } } in
      if dtr_close_should_stop_channel was_open dtr
      then record link {
        cdc = opened_as (record forgotten {
          reset_rx_flushed = if queued then false else forgotten.reset_rx_flushed;
        });
        port = port;
      }
      else if not was_open && dtr
      then record link { cdc = opened_as (record link.cdc { admission = start_pending }) }
      else record link { cdc = opened_as link.cdc }

  -- `tud_cdc_line_coding_cb` for an interface in range and a pointer that is not null
  unfoldable pub line_coding_cb : Clock → ℕ → ℕ → ℕ → ℕ → Link B U → Link B U
  line_coding_cb clock bit_rate stop_bits parity data_bits link =
      elim (from_usb bit_rate stop_bits parity data_bits) [
        | none ↦ reject_line_coding clock (parse_reason bit_rate) link
        | some c ↦
            if not (acceptable link.port c)
            then reject_line_coding clock (backend_reason link.port.info c) link
            else arm_soft_pending c link
      ]

  -- A round of the loop of `usb_cdc_reset_host_state`
  unfoldable pub reset_link : Bool → ℕ → Link B U → Link B U
  reset_link worker_started port_id link =
      let stopped =
        if link.cdc.stats.opened
        then (request_channel_stop worker_started link.port).1
        else link.port in
      let quiesced =
        if stopped.lifecycle.stop_pending then channel_stop_usb_quiesced stopped else stopped in
      let forgotten = forget_session link.cdc in
      record link {
        cdc = record forgotten { stats = record forgotten.stats { opened = false } };
        port = reset_soft_pending port_id quiesced;
      }

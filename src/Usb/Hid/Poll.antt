-- ===== src/Usb/Hid/Poll.antt =====
-- The poll of the HID side: `usb_hid_init`, `usb_hid_reset_host_state`, `usb_hid_cdc_sessions_closed`
-- and `usb_hid_poll` of firmware/src/usb/usb_hid.c. The readings of the other parts of the firmware at
-- one moment are the record `Env`; TinyUSB's calls are parameters. The note of a publication for core 0's
-- load is left out.
use pico_uart.Prelude.{
  not, ◌&&◌, zero, some, ◌%◌, add32, sub32, sub64, ◌+◌, none, leb, true, [], u16, ltb,
  if◌then◌else◌, ◌/◌, Bool, get_or, set, Option, suc, ◌∷◌, false, replicate, ℕ, List, u32,
}
use pico_uart.Runtime.{PortInfo, History, Clock, port_count, no_error}
use pico_uart.Usb.{PortStats, CdcStats}
use pico_uart.Usb.Hid.{is_pending, HidError, Channel, Hid, unavailable, idle}
use pico_uart.Usb.Hid.Command.{set_result, execute_pending_save}
use pico_uart.Usb.Hid.Capture.{capture}
use pico_uart.Usb.Hid.Reports.{Board, Telemetry, build_channel, build_identity, build_configuration}
use pico_uart.Platform.BootConfig.Store.{State}

-- `USB_HID_CHANNEL_INTERVAL_MS`, `USB_HID_FAULT_SAMPLE_INTERVAL_MS`
abbrev pub channel_interval_ms : ℕ
channel_interval_ms = 500

abbrev pub fault_sample_interval_ms : ℕ
fault_sample_interval_ms = 100

-- What the driver, the CDC side and the clock say at one moment, by channel.
pub record Env : Type 0 where
  pub now_us : ℕ
  pub port_stats : ℕ → Option PortStats
  pub cdc_stats : ℕ → Option CdcStats
  pub history : ℕ → Option History
  pub snapshot : ℕ → Option (PortInfo × ℕ)
  pub telemetry : Telemetry

abbrev pub zero_port_stats : PortStats
zero_port_stats = record {
  uart_tx_bytes = 0;
  uart_rx_bytes = 0;
  tx_ring_high_watermark = 0;
  rx_ring_high_watermark = 0;
  tx_ring_overflow_count = 0;
  rx_ring_overflow_count = 0;
  rx_ring_pending_overflow_count = 0;
  rx_error_count = 0;
}

abbrev pub zero_cdc_stats : CdcStats
zero_cdc_stats = record {
  opened = false;
  tx_bytes = 0;
  rx_bytes = 0;
  rx_fifo_high_watermark = 0;
  tx_fifo_high_watermark = 0;
}

-- A channel after the `memset` of `usb_hid_init`.
abbrev pub zero_channel : Channel
zero_channel = record {
  uart = zero_port_stats;
  cdc = zero_cdc_stats;
  uart_sample_us = 0;
  measurement = unavailable;
  previous = replicate 4 0;
  total = replicate 4 0;
  rx_previous = replicate 2 0;
  rx_count = replicate 2 0;
  peaks = replicate 4 0;
  control = record { reason = no_error; uptime_us = 0 };
  last_fault_s = 0;
  last_publication_ms = 0;
  sequence = 0;
}

-- `usb_hid_reset_host_state`; the clock is read at one moment for all channels.
unfoldable pub reset_channels : ℕ → List Channel → List Channel
reset_channels now_us [] = []
reset_channels now_us (channel ∷ channels) =
    record channel { sequence = 0; last_publication_ms = now_us / 1000 }
    ∷ reset_channels now_us channels

unfoldable pub reset_host_state : ℕ → Hid → Hid
reset_host_state now_us hid = record hid {
  channels = reset_channels now_us hid.channels;
  next_channel = 0;
}

-- A channel of the array; the index is in range in every call of the code.
abbrev pub channel_at : Hid → ℕ → Channel
channel_at hid index = get_or hid.channels index zero_channel

unfoldable pub put_channel : ℕ → Channel → Hid → Hid
put_channel index channel hid = record hid { channels = set hid.channels index channel }

unfoldable pub capture_at : Env → ℕ → Hid → Bool × Hid
capture_at env index hid =
    let (ok, channel) =
      capture env.now_us (env.port_stats index) (env.cdc_stats index) (env.history index)
        (channel_at hid index) in
    (ok, put_channel index channel hid)

-- `usb_hid_init` before any call: the static reports, and the host's state of a fresh session.
unfoldable pub init_hid : ℕ → Board → Hid → Hid
init_hid now_us board hid =
    reset_host_state now_us (record (set_result 0 idle HidError.no_error hid) {
      channels = replicate port_count zero_channel;
      identity = build_identity board;
      configuration = build_configuration board;
      requested_profile = 0;
      reboot_pending = false;
      next_fault_sample_ms = 0;
    })

-- `usb_hid_cdc_sessions_closed`, from `index` on
unfoldable pub sessions_closed_from : (ℕ → Option CdcStats) → ℕ → ℕ → Bool
sessions_closed_from cdc_stats index zero = true
sessions_closed_from cdc_stats index (suc rounds) =
    let rest = sessions_closed_from cdc_stats (index + 1) rounds in
    elim (cdc_stats index) [ none ↦ false | some stats ↦ not stats.opened && rest ]

unfoldable pub sessions_closed : (ℕ → Option CdcStats) → Bool
sessions_closed cdc_stats = sessions_closed_from cdc_stats 0 port_count

unfoldable pub capture_all : Env → ℕ → ℕ → Hid → Hid
capture_all env index zero hid = hid
capture_all env index (suc rounds) hid =
    capture_all env (index + 1) rounds (capture_at env index hid).1

-- `(int32_t)(now_ms - next) >= 0`
unfoldable pub sample_due : ℕ → ℕ → Bool
sample_due now_ms next = ltb (sub32 now_ms next) 0x8000_0000

unfoldable pub sample_faults : Env → Hid → Hid
sample_faults env hid =
    let now_ms = u32 (env.now_us / 1000) in
    if sample_due now_ms hid.next_fault_sample_ms
    then record (capture_all env 0 port_count hid) {
      next_fault_sample_ms = add32 now_ms fault_sample_interval_ms;
    }
    else hid

unfoldable pub publication_due : ℕ → ℕ → Hid → Bool
publication_due now_ms index hid =
    leb channel_interval_ms (sub64 now_ms (channel_at hid index).last_publication_ms)

-- The first channel that is due, from the next one on.
unfoldable pub due_channel : ℕ → ℕ → ℕ → Hid → Option ℕ
due_channel now_ms offset zero hid = none
due_channel now_ms offset (suc rounds) hid =
    let rest = due_channel now_ms (offset + 1) rounds hid in
    let index = (hid.next_channel + offset) % port_count in
    if publication_due now_ms index hid then some index else rest

-- The publication of one channel; `later_ms` is the time after its capture.
unfoldable pub publish_channel : (ℕ → List ℕ → Bool) → Env → ℕ → ℕ → Hid → Hid
publish_channel hid_report env later_ms index hid =
    let (ok, captured) = capture_at env index hid in
    let channel = channel_at captured index in
    let published =
      put_channel index
        (record channel { sequence = u16 (channel.sequence + 1); last_publication_ms = later_ms })
        captured in
    let next = (index + 1) % port_count in
    elim (if ok then build_channel (env.snapshot index) true later_ms channel else none) [
      | none ↦ record captured { next_channel = next }
      | some payload ↦
          if hid_report (10 + index) payload
          then record published { next_channel = next }
          else record captured { next_channel = next }
    ]

unfoldable pub publish_due : (ℕ → List ℕ → Bool) → Env → ℕ → ℕ → Hid → Hid
publish_due hid_report env now_ms later_ms hid = elim (due_channel now_ms 0 port_count hid) [
  | none ↦ hid
  | some index ↦ publish_channel hid_report env later_ms index hid
]

module _ (flash_range_erase : List ℕ → List ℕ) (flash_range_program : List ℕ → List ℕ → List ℕ)
    (flash_safe_execute : (List ℕ → List ℕ) → List ℕ → Bool × List ℕ) where
  -- `usb_hid_poll`, and whether it resets the board. `sampling` and `publishing` are the readings of
  -- its two captures, and the clock ticks by `clock`.
  unfoldable pub poll :
      (ℕ → List ℕ → Bool) → Clock → Bool → Bool → Env → Env → ℕ → Hid × State → (Hid × State) × Bool
  poll hid_report clock rp2350 ready sampling publishing later_ms (hid, boot) =
      let saved =
        execute_pending_save flash_range_erase flash_range_program flash_safe_execute
          clock.make_timeout_time_ms rp2350 (sessions_closed sampling.cdc_stats) hid boot in
      let (hid1, boot1) = if is_pending hid.command_status then saved else (hid, boot) in
      let hid2 = sample_faults sampling hid1 in
      if hid1.reboot_pending && clock.time_reached hid1.reboot_deadline
      then ((hid1, boot1), true)
      else if not ready
      then ((hid2, boot1), false)
      else (
        (publish_due hid_report publishing (sampling.now_us / 1000) later_ms hid2, boot1),
        false,
      )

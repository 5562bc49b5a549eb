-- ===== src/Usb/Hid/Capture.antt =====
-- The accounting of a channel's counters: `usb_hid_note_fault` and `usb_hid_capture` of
-- firmware/src/usb/usb_hid.c. The arguments of `capture` are what the code reads: the driver's and
-- the CDC side's statistics, the history of control errors, and the time of an accepted sample.
pub mod Counters
pub mod Step
pub mod Totals
use pico_uart.Runtime.{History, ControlError}
use pico_uart.Prelude.{
  sub32, ◌+◌, u32_max, false, none, ◌||◌, u64, ◌-◌, ◌!=◌, [], ltb, some, true, Option, Bool, leb,
  not, saturating_add, ◌/◌, ◌∷◌, ℕ, List, if◌then◌else◌,
}
use pico_uart.Runtime.{no_error}
use pico_uart.Usb.{PortStats, CdcStats}
use pico_uart.Usb.Hid.{Channel, Measurement, unavailable, current, cached, is_unavailable}

abbrev pub is_no_error : ControlError → Bool
is_no_error no_error = true
is_no_error _ = false

unfoldable pub note_fault : ℕ → Channel → Channel
note_fault observation_us channel =
    let seconds = observation_us / 1000000 in
    let value = if ltb u32_max seconds then u32_max else seconds in
    if ltb channel.last_fault_s value then record channel { last_fault_s = value } else channel

-- What a counter has gained since the last sample; one that went back starts again at 0.
unfoldable pub rx_delta : ℕ → ℕ → ℕ
rx_delta raw previous = if leb previous raw then raw - previous else raw

-- The loop over the two receive faults; whether any counter has gained.
unfoldable pub count_faults : List ℕ → List ℕ → List ℕ → List ℕ
count_faults (raw ∷ raws) (previous ∷ previouses) (count ∷ counts) =
    saturating_add count (rx_delta raw previous) ∷ count_faults raws previouses counts
count_faults _ _ _ = []

unfoldable pub any_gain : List ℕ → List ℕ → Bool
any_gain (raw ∷ raws) (previous ∷ previouses) =
    rx_delta raw previous != 0 || any_gain raws previouses
any_gain _ _ = false

-- The branch of an accepted UART sample. The fault is noted for each counter that gained, at one
-- time, which is the same as once.
unfoldable pub accept_sample : ℕ → PortStats → Channel → Channel
accept_sample now_us candidate channel =
    let rx =
      saturating_add candidate.rx_ring_overflow_count candidate.rx_ring_pending_overflow_count
      ∷ candidate.rx_error_count
      ∷ [] in
    let sampled = record channel {
      uart = candidate;
      uart_sample_us = now_us;
      measurement = current;
      rx_previous = rx;
      rx_count = count_faults rx channel.rx_previous channel.rx_count;
    } in
    if any_gain rx channel.rx_previous then note_fault now_us sampled else sampled

unfoldable pub sample_uart : ℕ → Option PortStats → Channel → Channel
sample_uart now_us none channel =
    if is_unavailable channel.measurement then channel else record channel { measurement = cached }
sample_uart now_us (some candidate) channel = accept_sample now_us candidate channel

-- The loop over the four byte counters: the totals have 64 bits, the raw counters 32.
unfoldable pub add_totals : List ℕ → List ℕ → List ℕ → List ℕ
add_totals (raw ∷ raws) (previous ∷ previouses) (total ∷ totals) =
    u64 (total + sub32 raw previous) ∷ add_totals raws previouses totals
add_totals _ _ _ = []

unfoldable pub raise_peaks : List ℕ → List ℕ → List ℕ
raise_peaks (value ∷ values) (peak ∷ peaks) =
    (if ltb peak value then value else peak) ∷ raise_peaks values peaks
raise_peaks _ _ = []

abbrev pub raw_bytes : Channel → List ℕ
raw_bytes channel =
    channel.uart.uart_tx_bytes ∷ channel.uart.uart_rx_bytes ∷ channel.cdc.tx_bytes
    ∷ channel.cdc.rx_bytes ∷ []

abbrev pub watermarks : Channel → List ℕ
watermarks channel =
    channel.uart.tx_ring_high_watermark ∷ channel.uart.rx_ring_high_watermark
    ∷ channel.cdc.tx_fifo_high_watermark ∷ channel.cdc.rx_fifo_high_watermark ∷ []

-- The part after the control history.
unfoldable pub account : Channel → Channel
account channel =
    let noted =
      if not (is_no_error channel.control.reason)
      then note_fault channel.control.uptime_us channel
      else channel in
    record noted {
      total = add_totals (raw_bytes channel) channel.previous channel.total;
      previous = raw_bytes channel;
      peaks = raise_peaks (watermarks channel) channel.peaks;
    }

unfoldable pub capture :
    ℕ → Option PortStats → Option CdcStats → Option History → Channel → Bool × Channel
capture now_us stats cdc control channel =
    let sampled = sample_uart now_us stats channel in
    elim cdc [
      | none ↦ (false, sampled)
      | some c ↦ elim control [
        | none ↦ (false, record sampled { cdc = c })
        | some h ↦ (true, account (record sampled { cdc = c; control = h }))
      ]
    ]

-- ===== src/Usb/Cdc/Transfer.antt =====
-- The bytes of one interface: `usb_cdc_bridge_usb_to_uart`, `usb_cdc_flush_if_due` and
-- `usb_cdc_bridge_uart_to_usb` of firmware/src/usb/usb_cdc.c. TinyUSB's calls for an interface are
-- the record `Tud`, on the state of its FIFOs.
use pico_uart.Runtime.{Clock, Port}
use pico_uart.Ring.{Ring}
use pico_uart.Prelude.{
  not, ◌||◌, false, leb, sub32, u32, ◌&&◌, ltb, ◌!=◌, add32, Bool, ◌==◌, List, if◌then◌else◌, ℕ,
}
use pico_uart.Usb.{bridge_pass_budget, cdc_tx_buffer_size}
use pico_uart.Usb.Cdc.{Link, update_high_watermark, flush_latency_us}
use pico_uart.Driver.{fill_port}
use pico_uart.Driver.Receive.{drain_port, recover_port}
use pico_uart.Platform.ServiceLoad.{note}

pub record Tud (U : Type 0) : Type 0 where
  pub read : U → ℕ → U × List ℕ
  pub available : U → ℕ
  pub read_flush : U → U
  pub write : U → List ℕ → U × ℕ
  pub write_available : U → ℕ
  pub write_flush : U → U
  pub write_clear : U → U × Bool

-- `UART_BRIDGE_RX_SNAPSHOT_SIZE`
abbrev pub rx_snapshot_size : ℕ
rx_snapshot_size = 1024

abbrev pub within_budget : ℕ → ℕ
within_budget n = if ltb bridge_pass_budget n then bridge_pass_budget else n

-- What is outside of an interface: TinyUSB, the rings of the backend (to write one back through its
-- pointer), what the producer does while a snapshot is copied, the fuel of the bridge's loops, whether
-- the worker has started, and the clock.
pub record World (B U : Type 0) : Type 0 where
  pub tud : Tud U
  pub put_tx_ring : B → Ring → B
  pub put_rx_ring : B → Ring → B
  pub during_copy : Port B × U → Ring → (Port B × U) × Ring
  pub rounds : ℕ
  pub worker_started : Bool
  pub clock : Clock
  pub make_timeout_time_us : ℕ → ℕ

module _ {B U : Type 0} where
  -- The statistics after `drained` bytes, if any
  unfoldable pub count_rx : ℕ → Link B U → Link B U
  count_rx drained link =
      if drained != 0
      then record link {
        load = note link.load;
        cdc = record link.cdc {
          stats = record link.cdc.stats { rx_bytes = add32 link.cdc.stats.rx_bytes (u32 drained) };
        };
      }
      else link

  unfoldable pub bridge_usb_to_uart : World B U → Link B U → Link B U
  bridge_usb_to_uart w link =
      let available = w.tud.available link.usb in
      let stats = record link.cdc.stats {
        rx_fifo_high_watermark =
            update_high_watermark link.cdc.stats.rx_fifo_high_watermark available;
      } in
      let seen = record link { cdc = record link.cdc { stats = stats } } in
      let ((port, usb), drained) =
        fill_port w.put_tx_ring w.tud.read w.rounds (within_budget available)
          (link.port, link.usb) in
      if available != 0 then count_rx drained (record seen { port = port; usb = usb }) else seen

  unfoldable pub flush_if_due : World B U → Link B U → Link B U
  flush_if_due w link =
      if link.cdc.tx_flush_pending && w.clock.time_reached link.cdc.tx_flush_deadline
      then record link {
        load = note link.load;
        usb = w.tud.write_flush link.usb;
        cdc = record link.cdc { tx_flush_pending = false };
      }
      else link

  -- What follows a drain that wrote `written` bytes, at least one: the count, and the flush at once
  -- or by its deadline.
  unfoldable pub after_write : World B U → ℕ → ℕ → Link B U → Link B U
  after_write w deadline written link =
      let stats = record link.cdc.stats {
        tx_bytes = add32 link.cdc.stats.tx_bytes (u32 written);
      } in
      let now = leb bridge_pass_budget written || w.tud.write_available link.usb == 0 in
      record link {
        load = note link.load;
        usb = if now then w.tud.write_flush link.usb else link.usb;
        cdc = record link.cdc {
          stats = stats;
          tx_flush_deadline =
              if not link.cdc.tx_flush_pending then deadline else link.cdc.tx_flush_deadline;
          tx_flush_pending = not now;
        };
      }

  -- The part after `writable` is known; with no room the ring's overruns are still retired.
  unfoldable pub drain_into_usb : World B U → ℕ → ℕ → Link B U → Link B U
  drain_into_usb w deadline writable link =
      let (recovered, retired) = recover_port w.put_rx_ring link.port in
      let ((port, usb), written) =
        drain_port w.put_rx_ring w.tud.write w.during_copy w.rounds (within_budget writable)
          rx_snapshot_size (link.port, link.usb) in
      let drained = record link { port = port; usb = usb } in
      if writable == 0
      then record link {
        port = recovered;
        load = if retired != 0 then note link.load else link.load;
      }
      else if written != 0
      then after_write w deadline written drained
      else drained

  -- `make_timeout_time_us` is the SDK's.
  unfoldable pub bridge_uart_to_usb : World B U → Link B U → Link B U
  bridge_uart_to_usb w link =
      let flushed = flush_if_due w link in
      let writable = w.tud.write_available flushed.usb in
      let stats = record flushed.cdc.stats {
        tx_fifo_high_watermark =
            update_high_watermark flushed.cdc.stats.tx_fifo_high_watermark
              (sub32 cdc_tx_buffer_size writable);
      } in
      drain_into_usb w (w.make_timeout_time_us flush_latency_us) writable
        (record flushed { cdc = record flushed.cdc { stats = stats } })

-- ===== src/Usb/Cdc/Poll.antt =====
-- All interfaces: `usb_cdc_init`, `usb_cdc_reset_host_state`, `tud_mount_cb`, `tud_umount_cb`,
-- `usb_cdc_poll` and `usb_cdc_port_stats` of firmware/src/usb/usb_cdc.c. The interfaces are a function
-- of their number; what TinyUSB's task does, callbacks included, is a parameter.
use pico_uart.Prelude.{
  some, none, zero, not, ◌==◌, leb, ◌%◌, ◌+◌, Option, if◌then◌else◌, suc, Bool, false, ℕ,
}
use pico_uart.Usb.{CdcStats}
use pico_uart.Usb.Hid.{Hid}
use pico_uart.Usb.Hid.Poll.{reset_host_state}
use pico_uart.Usb.Cdc.{Link, reset_link, nil_time}
use pico_uart.Usb.Cdc.Transfer.{World}
use pico_uart.Usb.Cdc.Session.{poll_link}
use pico_uart.Platform.ServiceLoad.{Core, note}
use pico_uart.Runtime.{port_count}

-- The interfaces, the one that the next poll starts at, and the load account of core 0.
pub record Cdc (B U : Type 0) : Type 0 where
  pub links : ℕ → Link B U
  pub start_itf : ℕ
  pub session_active : Bool
  pub load : Core

module _ {B U : Type 0} where
  unfoldable pub put_link : ℕ → Link B U → (ℕ → Link B U) → ℕ → Link B U
  put_link itf link links index = if index == itf then link else links index

  -- `usb_cdc_init` before TinyUSB is started
  unfoldable pub init_cdc : Cdc B U → Cdc B U
  init_cdc c = record c {
    start_itf = 0;
    links = λ itf. record (c.links itf) {
      cdc = record (c.links itf).cdc { tx_flush_pending = false; tx_flush_deadline = nil_time };
    };
  }

  unfoldable pub reset_links : Bool → Cdc B U → Cdc B U
  reset_links worker_started c = record c {
    links = λ itf. reset_link worker_started itf (c.links itf);
  }

  -- `tud_mount_cb`, `tud_umount_cb`
  unfoldable pub change_session : Bool → Bool → ℕ → Cdc B U × Hid → Cdc B U × Hid
  change_session worker_started active now_us (c, hid) = (
    record (reset_links worker_started c) { session_active = active },
    reset_host_state now_us hid,
  )

  unfoldable pub visit : (ℕ → World B U) → ℕ → Cdc B U → Cdc B U
  visit worlds itf c =
      let polled = poll_link (worlds itf) itf (record (c.links itf) { load = c.load }) in
      record c { links = put_link itf polled c.links; load = polled.load }

  -- The loop of `usb_cdc_poll`, from `offset` on
  unfoldable pub visit_all : (ℕ → World B U) → ℕ → ℕ → Cdc B U → Cdc B U
  visit_all worlds offset zero c = c
  visit_all worlds offset (suc rounds) c =
      visit_all worlds (offset + 1) rounds (visit worlds ((c.start_itf + offset) % port_count) c)

  unfoldable pub poll_interfaces : (ℕ → World B U) → Cdc B U → Cdc B U
  poll_interfaces worlds c = record (visit_all worlds 0 port_count c) {
    start_itf = (c.start_itf + 1) % port_count;
  }

  -- `usb_cdc_poll`: whether TinyUSB has an event, its task, and whether the device is mounted then.
  -- The `start_itf` is read before the task, which does not write it.
  unfoldable pub poll :
      (ℕ → World B U)
      → Bool
      → Bool
      → (Cdc B U × Hid → Cdc B U × Hid)
      → (Cdc B U × Hid → Bool)
      → ℕ
      → Cdc B U × Hid
      → Cdc B U × Hid
  poll worlds worker_started event_ready task mounted now_us (c, hid) =
      let noted = if event_ready then record c { load = note c.load } else c in
      let (c1, hid1) = task (noted, hid) in
      if not (mounted (c1, hid1))
      then if c1.session_active
        then change_session worker_started false now_us (c1, hid1)
        else (c1, hid1)
      else (poll_interfaces worlds c1, hid1)

  -- `usb_cdc_port_stats`, for a pointer that is not null
  unfoldable pub cdc_port_stats : Cdc B U → ℕ → Option CdcStats
  cdc_port_stats c itf = if leb port_count itf then none else some (c.links itf).cdc.stats

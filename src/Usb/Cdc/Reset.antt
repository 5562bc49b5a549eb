-- ===== src/Usb/Cdc/Reset.antt =====
-- A new session of the host: `tud_mount_cb` and `tud_umount_cb` of firmware/src/usb/usb_cdc.c, on all
-- interfaces, the driver's ports and the HID side.
use pico_uart.Control.{has_pending_port, pending_should_clear}
use pico_uart.Prelude.{
  ◌∙◌, arith, ap, not, refl, by_test, false, true, ◌&&◌, ◌≡◌, if◌then◌else◌, ◌||◌, ℕ, Bool,
}
use pico_uart.Usb.Hid.{Hid}
use pico_uart.Usb.Hid.Poll.{reset_host_state, sessions_closed, sessions_closed_from}
use pico_uart.Usb.Cdc.{Link, reset_link, forget_session, start_pending}
use pico_uart.Usb.Cdc.Poll.{Cdc, change_session, reset_links, cdc_port_stats}
use pico_uart.Driver.{
  request_channel_stop, channel_stop_usb_quiesced, channel_stop_is_quiesced, reset_soft_pending,
}
use pico_uart.Plane.{release_pending, is_null_ops}
use pico_uart.Runtime.{Port}

module _ {B : Type 0} where
  release_lifecycle :
      (port_id : ℕ) (waits : Bool) (port : Port B)
      → let later = release_pending port_id waits port in
        (later.lifecycle ≡ port.lifecycle) × (later.soft_pending ≡ port.soft_pending)
  unfolding release_pending
  release_lifecycle port_id waits port =
      by_test
        (λ (p : Port B). (p.lifecycle ≡ port.lifecycle) × (p.soft_pending ≡ port.soft_pending))
        (pending_should_clear port.soft_pending (has_pending_port port.mailbox port_id) waits)
        (λ _. (refl, refl)) (λ _. (refl, refl))

  quiesced_lem :
      (p : Port B)
      → let q = if p.lifecycle.stop_pending then channel_stop_usb_quiesced p else p in
        (q.lifecycle.stop_pending ≡ p.lifecycle.stop_pending)
        × (channel_stop_is_quiesced q ≡ p.lifecycle.stop_pending)
  unfolding channel_stop_usb_quiesced channel_stop_is_quiesced
  quiesced_lem p =
      let P : Port B → Type 0 = λ q.
        (q.lifecycle.stop_pending ≡ p.lifecycle.stop_pending)
        × (channel_stop_is_quiesced q ≡ p.lifecycle.stop_pending) in
      by_test P p.lifecycle.stop_pending
        (λ t.
          by_test P p.lifecycle.stop_pending (λ _. (refl, ground arith))
            (λ f. absurd (ground arith)))
        (λ f. (refl, ground arith))

module _ {B U : Type 0} where
  abbrev stops : Bool → Link B U → Bool
  stops started link =
      link.port.lifecycle.stop_pending
      || (link.cdc.stats.opened && started && not (is_null_ops link.port.ops))

  -- What a session leaves behind at an interface
  abbrev pub IsReset : Bool → Link B U → Link B U → Type 0
  IsReset started link later =
      (later.cdc.stats.opened ≡ false)
      × (later.cdc.admission ≡ start_pending)
      × (later.cdc.line_coding.pending ≡ false)
      × (later.port.soft_pending ≡ false)
      × (later.port.lifecycle.stop_pending ≡ stops started link)
      × (channel_stop_is_quiesced later.port ≡ stops started link)

  reset_stop :
      (started : Bool) (link : Link B U)
      → let p =
          if link.cdc.stats.opened then (request_channel_stop started link.port).1 else link.port in
        p.lifecycle.stop_pending ≡ stops started link
  unfolding request_channel_stop
  reset_stop started link =
      let P : Port B → Type 0 = λ p. p.lifecycle.stop_pending ≡ stops started link in
      by_test P link.cdc.stats.opened
        (λ o.
          by_test (λ (r : Bool × Port B). P r.1) (not started || is_null_ops link.port.ops)
            (λ t. ground arith) (λ f. ground arith))
        (λ o. ground arith)

  link-IsReset :
      (started : Bool) (port_id : ℕ) (link : Link B U)
      → IsReset started link (reset_link started port_id link)
  unfolding reset_link forget_session reset_soft_pending channel_stop_is_quiesced
      channel_stop_usb_quiesced
  link-IsReset started port_id link =
      let p =
        if link.cdc.stats.opened then (request_channel_stop started link.port).1 else link.port in
      let q = if p.lifecycle.stop_pending then channel_stop_usb_quiesced p else p in
      let kept = release_lifecycle port_id q.worker.pending (record q { soft_pending = false }) in
      let (s, u) = quiesced_lem p in
      let e = reset_stop started link in
      (
        refl,
        refl,
        refl,
        kept.1,
        ap (λ l. l.stop_pending) kept.0 ∙ s ∙ e,
        ap (λ l. l.stop_pending && l.usb_quiesced) kept.0 ∙ u ∙ e,
      )

-- At every enumeration and at its loss, all sessions are closed: at each interface no request waits,
-- the session would start anew, and a running channel stops, with USB's side of the stop done. The HID
-- side sees that the sessions are closed, so that it may take a new profile.
pub change_session_lem :
    {B U : Type 0} (started active : Bool) (now_us : ℕ) (c : Cdc B U) (hid : Hid)
    → let (c', hid') = change_session started active now_us (c, hid) in
      (sessions_closed (cdc_port_stats c') ≡ true)
      × ((itf : ℕ) → IsReset started (c.links itf) (c'.links itf))
      × (c'.session_active ≡ active)
      × (hid'.command_status ≡ hid.command_status)
unfolding change_session reset_links sessions_closed sessions_closed_from cdc_port_stats
    reset_host_state reset_link
change_session_lem started active now_us c hid =
    (refl, λ itf. link-IsReset started itf (c.links itf), refl, refl)

-- ===== src/Usb/Cdc/Events.antt =====
-- What core 0 does at an interface whose channel is stopping: the host's callbacks and the polls of
-- firmware/src/usb/usb_cdc.c.
use pico_uart.Control.{has_pending_port, pending_should_clear}
use pico_uart.Prelude.{
  ap, refl, ◌∙◌, ◌&&◌, arith, false, ◌||◌, by_option, if◌then◌else◌, true, not, ℕ, Bool, by_test,
  ◌≡◌,
}
use pico_uart.Usb.Cdc.{
  Link, line_state_cb, line_coding_cb, arm_soft_pending, reject_line_coding, reset_link,
  forget_session, dtr_close_should_stop_channel,
}
use pico_uart.Usb.Cdc.Transfer.{World}
use pico_uart.Usb.Cdc.Session.{poll_link, quiesce}
use pico_uart.Driver.{
  request_channel_stop, reset_soft_pending, channel_stop_usb_quiesced, channel_stop_is_quiesced,
  mark_control_pending, report_control_error, acceptable,
}
use pico_uart.Plane.{release_pending, record_error, is_null_ops}
use pico_uart.LineCoding.{from_usb}
use pico_uart.Runtime.{Port, Clock}

-- What core 0 does at an interface: the host changes DTR, the host sends line settings, a poll, or a
-- new session of the host.
pub data CdcEvent (B U : Type 0) : Type 0 where
  dtr_event : Bool → Bool → CdcEvent B U
  coding_event : Clock → ℕ → ℕ → ℕ → ℕ → CdcEvent B U
  poll_event : World B U → CdcEvent B U
  session_event : Bool → CdcEvent B U

module _ {B : Type 0} where
  -- The port still stops, and its backend is the same.
  abbrev Holds : Port B → Port B → Type 0
  Holds port later = (later.lifecycle.stop_pending ≡ true) × (later.backend ≡ port.backend)

  release-Holds :
      (port_id : ℕ) (waits : Bool) (start port : Port B)
      → Holds start port
      → Holds start (release_pending port_id waits port)
  unfolding release_pending
  release-Holds port_id waits start port h =
      by_test (Holds start)
        (pending_should_clear port.soft_pending (has_pending_port port.mailbox port_id) waits)
        (λ _. h) (λ _. h)

  request-Holds :
      (started : Bool) (start port : Port B)
      → Holds start port
      → Holds start (request_channel_stop started port).1
  unfolding request_channel_stop
  request-Holds started start port h =
      by_test (λ (r : Bool × Port B). Holds start r.1) (not started || is_null_ops port.ops)
        (λ _. h) (λ _. (refl, h.1))

  quiesced-Holds :
      (start port : Port B) → Holds start port → Holds start (channel_stop_usb_quiesced port)
  unfolding channel_stop_usb_quiesced
  quiesced-Holds start port h = by_test (Holds start) port.lifecycle.stop_pending (λ _. h) (λ _. h)

  release_same :
      (port_id : ℕ) (waits : Bool) (port : Port B)
      → let later = release_pending port_id waits port in
        (later.ops ≡ port.ops) × (later.backend ≡ port.backend)
  unfolding release_pending
  release_same port_id waits port =
      by_test (λ (p : Port B). (p.ops ≡ port.ops) × (p.backend ≡ port.backend))
        (pending_should_clear port.soft_pending (has_pending_port port.mailbox port_id) waits)
        (λ _. (refl, refl)) (λ _. (refl, refl))

  request_stops :
      (port : Port B) → is_null_ops port.ops ≡ false → Holds port (request_channel_stop true port).1
  unfolding request_channel_stop
  request_stops port n =
      by_test (λ (r : Bool × Port B). Holds port r.1) (not true || is_null_ops port.ops)
        (λ t. absurd (ground arith)) (λ _. (refl, refl))

module _ {B U : Type 0} where
  unfoldable pub cdc_step : ℕ → CdcEvent B U → Link B U → Link B U
  cdc_step port_id (dtr_event started dtr) link = line_state_cb started port_id dtr link
  cdc_step port_id (coding_event clock bit_rate stop_bits parity data_bits) link =
      line_coding_cb clock bit_rate stop_bits parity data_bits link
  cdc_step port_id (poll_event w) link = poll_link w port_id link
  cdc_step port_id (session_event started) link = reset_link started port_id link

  -- And no byte was counted.
  abbrev pub IsStopping : Link B U → Link B U → Type 0
  IsStopping link later =
      Holds link.port later.port
      × (later.cdc.stats.rx_bytes ≡ link.cdc.stats.rx_bytes)
      × (later.cdc.stats.tx_bytes ≡ link.cdc.stats.tx_bytes)

  dtr-IsStopping :
      (started : Bool) (port_id : ℕ) (dtr : Bool) (link : Link B U)
      → link.port.lifecycle.stop_pending ≡ true
      → IsStopping link (line_state_cb started port_id dtr link)
  unfolding line_state_cb forget_session reset_soft_pending
  dtr-IsStopping started port_id dtr link e =
      by_test (IsStopping link) (dtr_close_should_stop_channel link.cdc.stats.opened dtr)
        (λ _. (
          request-Holds started link.port _ (
              release-Holds port_id link.port.worker.pending link.port
                (record link.port { soft_pending = false }) (e, refl)),
          refl,
          refl,
        ))
        (λ _.
          by_test (IsStopping link) (not link.cdc.stats.opened && dtr)
            (λ _. ((e, refl), refl, refl)) (λ _. ((e, refl), refl, refl)))

  coding-IsStopping :
      (clock : Clock) (bit_rate stop_bits parity data_bits : ℕ) (link : Link B U)
      → link.port.lifecycle.stop_pending ≡ true
      → IsStopping link (line_coding_cb clock bit_rate stop_bits parity data_bits link)
  unfolding line_coding_cb reject_line_coding report_control_error record_error arm_soft_pending
      mark_control_pending
  coding-IsStopping clock bit_rate stop_bits parity data_bits link e =
      by_option (IsStopping link) (from_usb bit_rate stop_bits parity data_bits) _ _
        (λ _. ((e, refl), refl, refl))
        (λ c _.
          by_test (IsStopping link) (not (acceptable link.port c)) (λ _. ((e, refl), refl, refl))
            (λ _. ((e, refl), refl, refl)))

  poll-IsStopping :
      (w : World B U) (port_id : ℕ) (link : Link B U)
      → link.port.lifecycle.stop_pending ≡ true
      → IsStopping link (poll_link w port_id link)
  unfolding poll_link quiesce
  poll-IsStopping w port_id link e =
      let usb = if link.cdc.reset_rx_flushed then link.usb else w.tud.read_flush link.usb in
      by_test (IsStopping link) link.port.lifecycle.stop_pending
        (λ _.
          by_test (IsStopping link) (channel_stop_is_quiesced link.port)
            (λ _. ((e, refl), refl, refl))
            (λ _. (
              by_test (Holds link.port) (w.tud.write_clear usb).1
                  (λ _. quiesced-Holds link.port link.port (e, refl)) (λ _. (e, refl)),
              refl,
              refl,
            )))
        (λ f. absurd (ground arith))

  session-IsStopping :
      (started : Bool) (port_id : ℕ) (link : Link B U)
      → link.port.lifecycle.stop_pending ≡ true
      → IsStopping link (reset_link started port_id link)
  unfolding reset_link forget_session reset_soft_pending
  session-IsStopping started port_id link e =
      let p =
        if link.cdc.stats.opened then (request_channel_stop started link.port).1 else link.port in
      let q = if p.lifecycle.stop_pending then channel_stop_usb_quiesced p else p in
      let hp : Holds link.port p =
        by_test (Holds link.port) link.cdc.stats.opened
          (λ _. request-Holds started link.port link.port (e, refl)) (λ _. (e, refl)) in
      let hq : Holds link.port q =
        by_test (Holds link.port) p.lifecycle.stop_pending (λ _. quiesced-Holds link.port p hp)
          (λ _. hp) in
      (
        release-Holds port_id q.worker.pending link.port (record q { soft_pending = false }) hq,
        refl,
        refl,
      )

  pub step-IsStopping :
      (port_id : ℕ) (event : CdcEvent B U) (link : Link B U)
      → link.port.lifecycle.stop_pending ≡ true
      → IsStopping link (cdc_step port_id event link)
  unfolding cdc_step
  step-IsStopping port_id (dtr_event started dtr) link e = dtr-IsStopping started port_id dtr link e
  step-IsStopping port_id (coding_event clock bit_rate stop_bits parity data_bits) link e =
      coding-IsStopping clock bit_rate stop_bits parity data_bits link e
  step-IsStopping port_id (poll_event w) link e = poll-IsStopping w port_id link e
  step-IsStopping port_id (session_event started) link e = session-IsStopping started port_id link e

  pub close-IsStopping :
      (port_id : ℕ) (link : Link B U)
      → link.cdc.stats.opened ≡ true
      → is_null_ops link.port.ops ≡ false
      → IsStopping link (line_state_cb true port_id false link)
  unfolding line_state_cb forget_session reset_soft_pending dtr_close_should_stop_channel
  close-IsStopping port_id link o n =
      let p =
        release_pending port_id link.port.worker.pending
          (record link.port { soft_pending = false }) in
      let (ops, backend) =
        release_same port_id link.port.worker.pending (record link.port { soft_pending = false }) in
      let (stop, kept) = request_stops p (ap is_null_ops ops ∙ n) in
      by_test (IsStopping link) (link.cdc.stats.opened && not false)
        (λ _. ((stop, kept ∙ backend), refl, refl)) (λ f. absurd (ground arith))

-- ===== src/Usb/Cdc/Closing.antt =====
-- An interface whose channel is stopping: what core 0 of firmware/src/usb/usb_cdc.c and the worker of
-- core 1 do before the worker carries out the stop. A body of the worker's loops is one event.
use pico_uart.Driver.Sweep.{poll_port}
use pico_uart.Plane.Service.{service_deferred, service_mailbox}
use pico_uart.Plane.{is_null_ops}
use pico_uart.Driver.Steady.{
  waits, still_stops, poll-IsSteady, deferred-IsSteady, service_mailbox-IsSteady,
}
use pico_uart.Driver.{channel_stop_is_quiesced}
use pico_uart.Usb.Cdc.Events.{close-IsStopping, step-IsStopping, cdc_step, CdcEvent}
use pico_uart.Runtime.{Clock, Port}
use pico_uart.Driver.Lifecycle.{service_lifecycle}
use pico_uart.Usb.Cdc.{line_state_cb, Link}
use pico_uart.Prelude.{
  ◌∙◌, false, ap, if◌then◌else◌, by_test, true, Bool, List, ℕ, ◌≡◌, refl, [], ◌∷◌,
}

-- What either core does: a call of core 0, the body of one of the two loops of
-- `uart_control_plane_service`, of `uart_driver_poll_io`, or of the loop of
-- `uart_driver_service_channel_lifecycle`.
pub data StopEvent (B U : Type 0) : Type 0 where
  core0_event : CdcEvent B U → StopEvent B U
  mailbox_event : Clock → StopEvent B U
  deferred_event : Clock → Clock → StopEvent B U
  poll_port_event : StopEvent B U
  lifecycle_event : Clock → StopEvent B U

module _ {B U : Type 0} where
  abbrev pub with_port : Link B U → Port B → Link B U
  with_port link port = record link { port = port }

  unfoldable pub stop_step : ℕ → StopEvent B U → Link B U → Link B U
  stop_step port_id (core0_event event) link = cdc_step port_id event link
  stop_step port_id (mailbox_event clock) link =
      with_port link (service_mailbox clock port_id link.port)
  stop_step port_id (deferred_event clock later) link =
      with_port link (service_deferred clock later port_id link.port)
  stop_step port_id poll_port_event link = with_port link (poll_port link.port)
  stop_step port_id (lifecycle_event clock) link =
      with_port link (service_lifecycle clock port_id link.port)

  -- The worker finds a stop that USB has quiesced, and carries it out.
  unfoldable pub carries_out : StopEvent B U → Link B U → Bool
  carries_out (core0_event event) link = false
  carries_out (mailbox_event clock) link = false
  carries_out (deferred_event clock later) link = false
  carries_out poll_port_event link = false
  carries_out (lifecycle_event clock) link = channel_stop_is_quiesced link.port

  -- The events up to the one that carries out the stop, or all of them
  unfoldable pub until_stopped : ℕ → List (StopEvent B U) → Link B U → Link B U
  until_stopped port_id [] link = link
  until_stopped port_id (event ∷ events) link =
      let rest = until_stopped port_id events (stop_step port_id event link) in
      if carries_out event link then link else rest

  -- The stop waits still, and no byte was counted.
  abbrev Waiting : Link B U → Link B U → Type 0
  Waiting link later =
      (later.port.lifecycle.stop_pending ≡ true)
      × (later.cdc.stats.rx_bytes ≡ link.cdc.stats.rx_bytes)
      × (later.cdc.stats.tx_bytes ≡ link.cdc.stats.tx_bytes)

  step-Waiting :
      (port_id : ℕ) (event : StopEvent B U) (link : Link B U)
      → link.port.lifecycle.stop_pending ≡ true
      → carries_out event link ≡ false
      → Waiting link (stop_step port_id event link)
  unfolding stop_step carries_out
  step-Waiting port_id (core0_event event) link e q =
      let ((s, _), r, t) = step-IsStopping port_id event link e in (s, r, t)
  step-Waiting port_id (mailbox_event clock) link e q =
      (still_stops _ link.port (service_mailbox-IsSteady clock port_id link.port) e, refl, refl)
  step-Waiting port_id (deferred_event clock later) link e q =
      (still_stops _ link.port (deferred-IsSteady clock later port_id link.port) e, refl, refl)
  step-Waiting port_id poll_port_event link e q =
      (still_stops _ link.port (poll-IsSteady link.port) e, refl, refl)
  step-Waiting port_id (lifecycle_event clock) link e q = (
    ap (λ (p : Port B). p.lifecycle.stop_pending) (waits clock port_id link.port e q) ∙ e,
    refl,
    refl,
  )

  until-Waiting :
      (port_id : ℕ) (events : List (StopEvent B U)) (link : Link B U)
      → link.port.lifecycle.stop_pending ≡ true
      → Waiting link (until_stopped port_id events link)
  unfolding until_stopped
  until-Waiting port_id [] link e = (e, refl, refl)
  until-Waiting port_id (event ∷ events) link e =
      by_test (Waiting link) (carries_out event link) (λ _. (e, refl, refl))
        (λ q.
          let (s, r, t) = step-Waiting port_id event link e q in
          let (s', r', t') = until-Waiting port_id events (stop_step port_id event link) s in
          (s', r' ∙ r, t' ∙ t))

-- When the host closes an open session whose driver is up, the channel stops: until the worker
-- carries out the stop, in whatever order the host's callbacks, the polls, new sessions and the bodies
-- of the worker's loops follow each other, and be it that the session is opened anew, the stop waits
-- and no byte is counted between the host and the port. The close leaves the port's backend, which
-- holds its rings, as it is, and so does every such call of core 0 while the stop waits: only the
-- worker's bodies change it.
pub closing_lem :
    {B U : Type 0} (port_id : ℕ) (events : List (StopEvent B U)) (link : Link B U)
    → link.cdc.stats.opened ≡ true
    → is_null_ops link.port.ops ≡ false
    → let closed = line_state_cb true port_id false link in
      let later = until_stopped port_id events closed in
      (later.port.lifecycle.stop_pending ≡ true)
      × (later.cdc.stats.rx_bytes ≡ link.cdc.stats.rx_bytes)
      × (later.cdc.stats.tx_bytes ≡ link.cdc.stats.tx_bytes)
      × (closed.port.backend ≡ link.port.backend)
      × ((call : CdcEvent B U) → (cdc_step port_id call later).port.backend ≡ later.port.backend)
closing_lem port_id events link o n =
    let closed = line_state_cb true port_id false link in
    let ((s, b), r, t) = close-IsStopping port_id link o n in
    let (s', r', t') = until-Waiting port_id events closed s in
    (
      s',
      r' ∙ r,
      t' ∙ t,
      b,
      λ call. (step-IsStopping port_id call (until_stopped port_id events closed) s').0.1,
    )

-- ===== src/Usb/Cdc/Requests.antt =====
-- The line settings that wait at an interface for the driver's mailbox: how long they wait, over the
-- polls of the interface in `usb_cdc_poll` of firmware/src/usb/usb_cdc.c.
use pico_uart.Driver.Receive.{drain_port}
use pico_uart.Driver.{fill_port, port_is_ready, channel_stop_is_quiesced, request_channel_start}
use pico_uart.Prelude.{
  refl, inl, inr, true, false, ◌≢◌, Bool-cases, ◌⊎◌, ◌!=◌, ◌==◌, ◌&&◌, arith, not, ◌∙◌, by_test,
  false, true, ◌≡◌, Bool, ℕ,
}
use pico_uart.Control.Flags.{has}
use pico_uart.Runtime.{Clock}
use pico_uart.Usb.Cdc.{Link, start_pending, apply_pending_line_coding, PendingCoding}
use pico_uart.Usb.Cdc.Carried.{by_admission}
use pico_uart.Usb.Cdc.Session.{
  admit_run, admit_start, bridge, poll_link, quiesce, serve, serve_open,
}
use pico_uart.Usb.Cdc.Transfer.{
  rx_snapshot_size, within_budget, World, bridge_usb_to_uart, bridge_uart_to_usb, count_rx,
  flush_if_due, drain_into_usb, after_write,
}

-- The request of an interface
abbrev pub request_of : {B U : Type 0} → Link B U → PendingCoding
request_of link = link.cdc.line_coding

-- The sessions whose requests a poll serves: open ones whose port waits for no stop, and which are
-- either before their start or have a port that is ready.
abbrev pub IsServed : {B U : Type 0} → Link B U → Type 0
IsServed link =
    (link.cdc.stats.opened ≡ true)
    × (link.port.lifecycle.stop_pending ≡ false)
    × ((link.cdc.admission ≡ start_pending) ⊎ (port_is_ready link.port ≡ true))

ready_then : {A : Type 0} {b : Bool} → ¬ A → A ⊎ (b ≡ true) → b ≡ true
ready_then n (inl a) = absurd (n a)
ready_then n (inr t) = t

module _ {B U : Type 0} where
  fill_request :
      (w : World B U) (link : Link B U) → request_of (bridge_usb_to_uart w link) ≡ request_of link
  unfolding bridge_usb_to_uart count_rx
  fill_request w link =
      let P : Link B U → Type 0 = λ l. request_of l ≡ request_of link in
      let (_, drained) =
        fill_port w.put_tx_ring w.tud.read w.rounds (within_budget (w.tud.available link.usb))
          (link.port, link.usb) in
      by_test P (w.tud.available link.usb != 0) (λ _. by_test P _ (λ _. refl) (λ _. refl))
        (λ _. refl)

  drain_request :
      (w : World B U) (deadline writable : ℕ) (link : Link B U)
      → request_of (drain_into_usb w deadline writable link) ≡ request_of link
  unfolding drain_into_usb after_write
  drain_request w deadline writable link =
      let P : Link B U → Type 0 = λ l. request_of l ≡ request_of link in
      let (_, written) =
        drain_port w.put_rx_ring w.tud.write w.during_copy w.rounds (within_budget writable)
          rx_snapshot_size (link.port, link.usb) in
      by_test P (writable == 0) (λ _. refl) (λ _. by_test P (written != 0) (λ _. refl) (λ _. refl))

  flush_request :
      (w : World B U) (link : Link B U) → request_of (flush_if_due w link) ≡ request_of link
  unfolding flush_if_due
  flush_request w link =
      by_test (λ (l : Link B U). request_of l ≡ request_of link)
        (link.cdc.tx_flush_pending && w.clock.time_reached link.cdc.tx_flush_deadline) (λ _. refl)
        (λ _. refl)

  bridge_request : (w : World B U) (link : Link B U) → request_of (bridge w link) ≡ request_of link
  unfolding bridge bridge_uart_to_usb
  bridge_request w link =
      drain_request w _ _ _ ∙ flush_request w (bridge_usb_to_uart w link) ∙ fill_request w link

  pub idle_request :
      (started : Bool) (clock : Clock) (port_id : ℕ) (link : Link B U)
      → (request_of link).pending ≡ false
      → request_of (apply_pending_line_coding started clock port_id link) ≡ request_of link
  unfolding apply_pending_line_coding
  idle_request started clock port_id link h =
      by_test (λ (l : Link B U). request_of l ≡ request_of link) (not (request_of link).pending)
        (λ _. refl) (λ f. absurd (ground arith))

  run_request : (link : Link B U) → request_of (admit_run link).1 ≡ request_of link
  unfolding admit_run
  run_request link =
      let P : Bool × Link B U → Type 0 = λ r. request_of r.1 ≡ request_of link in
      by_admission P link.cdc.admission _ _ _ (λ _. refl)
        (λ _. by_test P (has link.port.status_flags 14) (λ _. refl) (λ _. refl)) (λ _. refl)

  quiesce_request :
      (w : World B U) (link : Link B U) → request_of (quiesce w link) ≡ request_of link
  unfolding quiesce
  quiesce_request w link =
      by_test (λ (l : Link B U). request_of l ≡ request_of link)
        (channel_stop_is_quiesced link.port) (λ _. refl) (λ _. refl)

  abbrev pub applied : World B U → ℕ → Link B U → PendingCoding
  applied w port_id link =
      request_of (apply_pending_line_coding w.worker_started w.clock port_id link)

  -- What a poll makes of a request: it applies it, or leaves it.
  serve_request :
      (w : World B U) (port_id : ℕ) (link : Link B U)
      → (port_is_ready link.port ≡ true
          → request_of (serve w port_id link) ≡ applied w port_id link)
        × (port_is_ready link.port ≡ false → request_of (serve w port_id link) ≡ request_of link)
  unfolding serve
  serve_request w port_id link =
      let staged = apply_pending_line_coding w.worker_started w.clock port_id link in
      let (runs, later) = admit_run staged in
      by_test
        (λ (l : Link B U).
          (port_is_ready link.port ≡ true → request_of l ≡ applied w port_id link)
          × (port_is_ready link.port ≡ false → request_of l ≡ request_of link))
        (not (port_is_ready link.port)) (λ f. (λ e. absurd (ground arith), λ e. refl))
        (λ f. (
          λ e.
              by_test (λ (l : Link B U). request_of l ≡ applied w port_id link) runs
                (λ _. bridge_request w later ∙ run_request staged) (λ _. run_request staged),
          λ e. absurd (ground arith),
        ))

  -- An applied request that has left is left alone.
  serve_gone :
      (w : World B U) (port_id : ℕ) (link : Link B U)
      → (request_of link).pending ≡ false
      → request_of (serve w port_id link) ≡ request_of link
  serve_gone w port_id link e =
      let (served, left) = serve_request w port_id link in
      elim (Bool-cases (port_is_ready link.port)) [
        | inl t ↦ served t ∙ idle_request w.worker_started w.clock port_id link e
        | inr f ↦ left f
      ]

  start_request :
      (w : World B U) (port_id : ℕ) (link : Link B U)
      → let r = admit_start w port_id link in
        (request_of r.1 ≡ applied w port_id link) × (r.0 ≡ true → (request_of r.1).pending ≡ false)
  unfolding admit_start
  start_request w port_id link =
      let staged = apply_pending_line_coding w.worker_started w.clock port_id link in
      let P : Bool × Link B U → Type 0 = λ r.
        (request_of r.1 ≡ applied w port_id link)
        × (r.0 ≡ true → (request_of r.1).pending ≡ false) in
      by_test P (request_of staged).pending (λ _. (refl, λ e. absurd (ground arith)))
        (λ f.
          by_test P (not (request_channel_start w.worker_started staged.port).0)
            (λ _. (refl, λ e. f)) (λ _. (refl, λ e. f)))

  open_request :
      (w : World B U) (port_id : ℕ) (link : Link B U)
      → (IsServed link → request_of (serve_open w port_id link) ≡ applied w port_id link)
        × ((request_of (serve_open w port_id link) ≡ applied w port_id link)
            ⊎ (request_of (serve_open w port_id link) ≡ request_of link))
  unfolding serve_open
  open_request w port_id link =
      let r = admit_start w port_id link in
      let P : Link B U → Type 0 = λ l.
        (IsServed link → request_of l ≡ applied w port_id link)
        × ((request_of l ≡ applied w port_id link) ⊎ (request_of l ≡ request_of link)) in
      let (served, left) = serve_request w port_id link in
      let later : link.cdc.admission ≢ start_pending → P (serve w port_id link) = λ n. (
        λ (_, _, a). served (ready_then n a),
        elim (Bool-cases (port_is_ready link.port)) [
          | inl t ↦ inl (served t)
          | inr f ↦ inr (left f)
        ],
      ) in
      by_admission P link.cdc.admission _ _ _
        (λ _.
          let (e, gone) = start_request w port_id link in
          let both : (l : Link B U) → request_of l ≡ applied w port_id link → P l =
            λ l h. (λ _. h, inl h) in
          by_test P r.0 (λ t. both (serve w port_id r.1) (serve_gone w port_id r.1 (gone t) ∙ e))
            (λ _. both r.1 e))
        (λ e. later (λ h. absurd (ground arith))) (λ e. later (λ h. absurd (ground arith)))

  pub poll_request :
      (w : World B U) (port_id : ℕ) (link : Link B U)
      → (IsServed link → request_of (poll_link w port_id link) ≡ applied w port_id link)
        × ((request_of (poll_link w port_id link) ≡ applied w port_id link)
            ⊎ (request_of (poll_link w port_id link) ≡ request_of link))
  unfolding poll_link
  poll_request w port_id link =
      let P : Link B U → Type 0 = λ l.
        (IsServed link → request_of l ≡ applied w port_id link)
        × ((request_of l ≡ applied w port_id link) ⊎ (request_of l ≡ request_of link)) in
      by_test P link.port.lifecycle.stop_pending
        (λ t. (λ (_, s, _). absurd (ground arith), inr (quiesce_request w link)))
        (λ _.
          by_test P (not link.cdc.stats.opened)
            (λ t. (λ (o, _, _). absurd (ground arith), inr refl))
            (λ _. open_request w port_id link))

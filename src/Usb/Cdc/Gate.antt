-- ===== src/Usb/Cdc/Gate.antt =====
-- When bytes move: the admission of a session in `usb_cdc_poll` of firmware/src/usb/usb_cdc.c.
use pico_uart.Usb.Cdc.Carried.{
  trans-IsCarried, admit_start-IsCarried, by_admission, IsCarried, apply-IsCarried, refl-IsCarried,
}
use pico_uart.Driver.{channel_stop_is_quiesced, port_is_ready}
use pico_uart.Prelude.{
  subst, ◌!=◌, sym, if◌then◌else◌, not, ◌∙◌, inl, inr, arith, refl, by_test, ◌≢◌, false, ℕ, ◌⊎◌,
  true, Bool, ◌≡◌,
}
use pico_uart.Usb.Cdc.Alike.{refl-IsAlike, ready_same}
use pico_uart.Runtime.{Port}
use pico_uart.Driver.{channel_stop_usb_quiesced}
use pico_uart.Usb.Cdc.{Link, start_pending, running, apply_pending_line_coding}
use pico_uart.Usb.Cdc.Transfer.{World}
use pico_uart.Usb.Cdc.Session.{
  quiesce, serve, serve_open, admit_start, poll_link, bridge, admit_run,
}
use pico_uart.Control.Flags.{has}

-- What TinyUSB's FIFOs can become without a byte read or written: parts of them are thrown away.
abbrev pub IsDiscarded : {B U : Type 0} → World B U → U → U → Type 0
IsDiscarded w u later =
    (later ≡ u)
    ⊎ (later ≡ w.tud.read_flush u)
    ⊎ (later ≡ (w.tud.write_clear u).0)
    ⊎ (later ≡ (w.tud.write_clear (w.tud.read_flush u)).0)

-- No byte was counted, read from or written to USB, or put into or taken from the port's rings, which
-- are its backend's, and the session is not running unless it was.
abbrev pub IsStill : {B U : Type 0} → World B U → Link B U → Link B U → Type 0
IsStill w link later =
    (later.cdc.stats ≡ link.cdc.stats)
    × (later.port.backend ≡ link.port.backend)
    × IsDiscarded w link.usb later.usb
    × (later.cdc.admission ≡ running → link.cdc.admission ≡ running)

-- The bridge ran on `ready`, which the session had become.
abbrev pub IsBridged : {B U : Type 0} → World B U → Link B U → Link B U → Type 0
IsBridged {B} {U} w link later =
    (ready : Link B U) × (later ≡ bridge w ready)
    × IsCarried link ready
    × (port_is_ready ready.port ≡ true)
    × (ready.cdc.admission ≡ running)
    × ((link.cdc.admission ≡ running) ⊎ (has ready.port.status_flags 14 ≡ false))

module _ {B U : Type 0} where
  -- What a session is before the bridge
  Admitted : Link B U → Bool × Link B U → Type 0
  Admitted link (runs, later) =
      IsCarried link later
      × (runs ≡ false → later.cdc.admission ≡ link.cdc.admission)
      × (runs ≡ true
          → link.cdc.admission ≢ start_pending
          → (later.cdc.admission ≡ running)
            × ((link.cdc.admission ≡ running) ⊎ (has later.port.status_flags 14 ≡ false)))

  run_lem : (link : Link B U) → Admitted link (admit_run link)
  unfolding admit_run Admitted
  run_lem link =
      by_admission (Admitted link) link.cdc.admission _ _ _
        (λ e. (refl-IsCarried link, λ f. refl, λ f n. absurd (n e)))
        (λ e.
          by_test (Admitted link) (has link.port.status_flags 14)
            (λ _. (refl-IsCarried link, λ f. refl, λ f n. absurd (ground arith)))
            (λ c. (
              (refl, refl, refl-IsAlike link.port),
              λ f. absurd (ground arith),
              λ f n. (refl, inr c),
            )))
        (λ e. (refl-IsCarried link, λ f. refl, λ f n. (e, inl e)))

  abbrev Served : World B U → Link B U → Link B U → Type 0
  Served w link later = IsStill w link later ⊎ IsBridged w link later

  -- A link that has only been carried is still.
  still :
      (w : World B U) (link later : Link B U)
      → IsCarried link later
      → (later.cdc.admission ≡ running → link.cdc.admission ≡ running)
      → IsStill w link later
  still w link later (s, u, p) f = (s, p.1, inl u, f)

  -- What is served from `mid` is served from the link before, which `mid` was carried from.
  via :
      (w : World B U) (link mid later : Link B U)
      → IsCarried link mid
      → (mid.cdc.admission ≡ running → link.cdc.admission ≡ running)
      → Served w mid later
      → Served w link later
  via w link mid later (s, u, p) f (inl (s', b, d, r)) =
      inl (s' ∙ s, b ∙ p.1, subst (λ x. IsDiscarded w x later.usb) u d, λ h. f (r h))
  via w link mid later k f (inr (ready, d, c, o, r, inl h)) =
      inr (ready, d, trans-IsCarried link mid ready k c, o, r, inl (f h))
  via w link mid later k f (inr (ready, d, c, o, r, inr h)) =
      inr (ready, d, trans-IsCarried link mid ready k c, o, r, inr h)

  serve_lem :
      (w : World B U) (port_id : ℕ) (link : Link B U)
      → link.cdc.admission ≢ start_pending
      → Served w link (serve w port_id link)
  unfolding serve Admitted
  serve_lem w port_id link n =
      let staged = apply_pending_line_coding w.worker_started w.clock port_id link in
      let (s, a) = apply-IsCarried w.worker_started w.clock port_id link in
      let (runs, later) = admit_run staged in
      let (c, stay, go) = run_lem staged in
      let k = trans-IsCarried link staged later s c in
      by_test (Served w link) (not (port_is_ready link.port))
        (λ _. inl (still w link link (refl-IsCarried link) (λ h. h)))
        (λ ready.
          by_test (Served w link) runs
            (λ r.
              let (run, clean) = go r (λ h. n (sym a ∙ h)) in
              let o : port_is_ready later.port ≡ true =
                ready_same link.port later.port k.2 ∙ ground arith in
              via w link staged _ s (λ h. sym a ∙ h) (inr (later, refl, c, o, run, clean)))
            (λ r. inl (still w link later k (λ h. sym a ∙ sym (stay r) ∙ h))))

  open_lem :
      (w : World B U) (port_id : ℕ) (link : Link B U) → Served w link (serve_open w port_id link)
  unfolding serve_open
  open_lem w port_id link =
      let (started, later) = admit_start w port_id link in
      by_admission (Served w link) link.cdc.admission _ _ _
        (λ e.
          let (s, n, go) = admit_start-IsCarried w port_id link e in
          by_test (Served w link) started
            (λ t.
              via w link later _ s (λ h. absurd (n h))
                (serve_lem w port_id later (λ h. absurd (ground (arith, go t)))))
            (λ _. inl (still w link later s (λ h. absurd (n h)))))
        (λ e. serve_lem w port_id link (λ h. absurd (ground arith)))
        (λ e. serve_lem w port_id link (λ h. absurd (ground arith)))

  -- What a poll throws away while the port stops
  quiesce_lem : (w : World B U) (link : Link B U) → IsStill w link (quiesce w link)
  unfolding quiesce channel_stop_usb_quiesced
  quiesce_lem w link =
      let usb = if link.cdc.reset_rx_flushed then link.usb else w.tud.read_flush link.usb in
      let (cleared, ok) = w.tud.write_clear usb in
      by_test (IsStill w link) (channel_stop_is_quiesced link.port)
        (λ _. still w link link (refl-IsCarried link) (λ h. h))
        (λ _. (
          refl,
          by_test (λ (p : Port B). p.backend ≡ link.port.backend) ok
              (λ _.
                by_test (λ (p : Port B). p.backend ≡ link.port.backend)
                  link.port.lifecycle.stop_pending (λ _. refl) (λ _. refl))
              (λ _. refl),
          by_test (λ u. IsDiscarded w link.usb (w.tud.write_clear u).0) link.cdc.reset_rx_flushed
              (λ _. inr (inr (inl refl))) (λ _. inr (inr (inr refl))),
          λ h. h,
        ))

-- A poll of an interface moves bytes only in a session that is open, whose port waits for no stop and
-- is ready, and only by one run of the bridge on the FIFOs and the backend that it found, after the
-- session has been admitted: it was running already, or the port's flags show no pending change, no
-- error and no failed start. In every other poll nothing is counted, the backend with its rings stays
-- as it is, the FIFOs of TinyUSB are at most thrown away, and no session starts to run.
pub poll_link_lem :
    {B U : Type 0} (w : World B U) (port_id : ℕ) (link : Link B U)
    → let later = poll_link w port_id link in
      IsStill w link later
      ⊎ ((link.cdc.stats.opened ≡ true)
          × (link.port.lifecycle.stop_pending ≡ false)
          × IsBridged w link later)
unfolding poll_link
poll_link_lem {B} {U} w port_id link =
    let P : Link B U → Type 0 = λ later.
      IsStill w link later
      ⊎ ((link.cdc.stats.opened ≡ true)
          × (link.port.lifecycle.stop_pending ≡ false)
          × IsBridged w link later) in
    by_test P link.port.lifecycle.stop_pending (λ _. inl (quiesce_lem w link))
      (λ s.
        by_test P (not link.cdc.stats.opened)
          (λ _. inl (
            refl,
            refl,
            by_test (IsDiscarded w link.usb) (w.tud.available link.usb != 0) (λ _. inr (inl refl))
                (λ _. inl refl),
            λ h. h,
          ))
          (λ o. elim (open_lem w port_id link) [
            | inl h ↦ inl h
            | inr h ↦ inr (ground arith, s, h)
          ]))

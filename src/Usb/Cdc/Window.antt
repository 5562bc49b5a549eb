-- ===== src/Usb/Cdc/Window.antt =====
-- How long the line settings of firmware/src/usb/usb_cdc.c wait: the window of
-- `usb_cdc_apply_pending_line_coding` over the polls of `usb_cdc_poll`.
use pico_uart.Driver.{acceptable, queue_line_coding}
use pico_uart.Usb.Cdc.Session.{poll_link}
use pico_uart.Usb.Cdc.Requests.{idle_request, IsServed, applied, poll_request, request_of}
use pico_uart.Usb.Cdc.Transfer.{World}
use pico_uart.Runtime.{Port, Clock}
use pico_uart.Usb.Cdc.{
  nil_time, soft_pending_timeout_ms, Link, drop_request, PendingCoding, time_nil,
  apply_pending_line_coding,
}
use pico_uart.Prelude.{
  sym, ap, ◌∙◌, subst, refl, [], ◌∷◌, inr, inl, not, arith, by_test, ◌⊎◌, if◌then◌else◌, ◌≢◌, false,
  Bool, true, List, ℕ, ◌≡◌,
}

-- A poll with what it finds outside, and what the worker does to the port before it
abbrev pub Turn : Type 0 → Type 0 → Type 0
Turn B U = World B U × (Port B → Port B)

unfoldable pub turns : {B U : Type 0} → ℕ → List (Turn B U) → Link B U → Link B U
turns port_id [] link = link
turns port_id ((w, worker) ∷ rest) link =
    turns port_id rest (poll_link w port_id (record link { port = worker link.port }))

-- The request waits, until `deadline`.
abbrev Waits : ℕ → PendingCoding → Type 0
Waits deadline request = (request.pending ≡ true) × (request.deadline ≡ deadline)

-- The request has left, or waits until `deadline`.
abbrev Ending : ℕ → PendingCoding → Type 0
Ending deadline request = (request.pending ≡ false) ⊎ Waits deadline request

-- The end of the window of a request that `clock` finds
abbrev window : Clock → PendingCoding → ℕ
window clock request =
    if time_nil request.deadline
    then clock.make_timeout_time_ms soft_pending_timeout_ms
    else request.deadline

-- A window that has been set stays.
window_set :
    (clock : Clock) (request : PendingCoding) (deadline : ℕ)
    → deadline ≢ nil_time
    → request.deadline ≡ deadline
    → window clock request ≡ deadline
unfolding time_nil
window_set clock request deadline n e =
    by_test (λ x. x ≡ deadline) (time_nil request.deadline) (λ t. absurd (ground arith)) (λ _. e)

module _ {B U : Type 0} where
  -- A request that is still there has a window, which has not ended.
  apply_window :
      (started : Bool) (clock : Clock) (port_id : ℕ) (link : Link B U)
      → let after = request_of (apply_pending_line_coding started clock port_id link) in
        let ends = window clock (request_of link) in
        (after.pending ≡ false) ⊎ (Waits ends after × (clock.time_reached ends ≡ false))
  unfolding apply_pending_line_coding drop_request
  apply_window started clock port_id link =
      let c = link.cdc.line_coding in
      let ends = window clock c in
      let P : Link B U → Type 0 = λ l.
        ((request_of l).pending ≡ false)
        ⊎ (Waits ends (request_of l) × (clock.time_reached ends ≡ false)) in
      let queued =
        (queue_line_coding started clock port_id c.line_coding c.control_generation link.port).0 in
      by_test P (not c.pending) (λ f. inl (ground arith))
        (λ p.
          by_test P (clock.time_reached ends) (λ _. inl refl)
            (λ early.
              by_test P (not (acceptable link.port c.line_coding)) (λ _. inl refl)
                (λ _. by_test P queued (λ _. inl refl) (λ _. inr ((ground arith, refl), early)))))

  applied-Ending :
      (w : World B U) (port_id deadline : ℕ) (link : Link B U)
      → deadline ≢ nil_time
      → Ending deadline (request_of link)
      → Ending deadline (applied w port_id link)
  applied-Ending w port_id deadline link n (inl gone) = inl (
      ap (λ (c : PendingCoding). c.pending)
        (idle_request w.worker_started w.clock port_id link gone)
      ∙ gone)
  applied-Ending w port_id deadline link n (inr (p, e)) =
      elim (apply_window w.worker_started w.clock port_id link) [
        | inl gone ↦ inl gone
        | inr ((q, ends), _) ↦ inr (q, ends ∙ window_set w.clock (request_of link) deadline n e)
      ]

  -- A poll leaves the window as it is.
  poll-Ending :
      (w : World B U) (port_id deadline : ℕ) (link : Link B U)
      → deadline ≢ nil_time
      → Ending deadline (request_of link)
      → Ending deadline (request_of (poll_link w port_id link))
  poll-Ending w port_id deadline link n h =
      let (_, either) = poll_request w port_id link in
      elim either [
        | inl t ↦ subst (Ending deadline) (sym t) (applied-Ending w port_id deadline link n h)
        | inr t ↦ subst (Ending deadline) (sym t) h
      ]

  turns-Ending :
      (port_id deadline : ℕ) (list : List (Turn B U)) (link : Link B U)
      → deadline ≢ nil_time
      → Ending deadline (request_of link)
      → Ending deadline (request_of (turns port_id list link))
  unfolding turns
  turns-Ending port_id deadline [] link n h = h
  turns-Ending port_id deadline ((w, worker) ∷ rest) link n h =
      turns-Ending port_id deadline rest _ n
        (poll-Ending w port_id deadline (record link { port = worker link.port }) n h)

  -- The poll that finds a request without a window and serves it sets the window.
  first-Ending :
      (w : World B U) (port_id : ℕ) (link : Link B U)
      → (request_of link).deadline ≡ nil_time
      → Ending (w.clock.make_timeout_time_ms soft_pending_timeout_ms) (applied w port_id link)
  unfolding time_nil
  first-Ending w port_id link e =
      let d = w.clock.make_timeout_time_ms soft_pending_timeout_ms in
      let set : window w.clock (request_of link) ≡ d =
        by_test (λ x. x ≡ d) (time_nil (request_of link).deadline) (λ _. refl)
          (λ f. absurd (ground arith)) in
      elim (apply_window w.worker_started w.clock port_id link) [
        | inl gone ↦ inl gone
        | inr ((q, ends), _) ↦ inr (q, ends ∙ set)
      ]

  -- A poll after the window that serves the request ends it.
  late :
      (w : World B U) (port_id deadline : ℕ) (link : Link B U)
      → deadline ≢ nil_time
      → w.clock.time_reached deadline ≡ true
      → Ending deadline (request_of link)
      → (applied w port_id link).pending ≡ false
  late w port_id deadline link n t (inl gone) =
      ap (λ (c : PendingCoding). c.pending)
        (idle_request w.worker_started w.clock port_id link gone)
      ∙ gone
  late w port_id deadline link n t (inr (p, e)) =
      elim (apply_window w.worker_started w.clock port_id link) [
        | inl gone ↦ gone
        | inr (_, early) ↦ absurd (
            ground (
              arith,
              sym t
                  ∙ ap w.clock.time_reached
                      (sym (window_set w.clock (request_of link) deadline n e))
                  ∙ early,
            ))
      ]

-- Line settings at an interface, with no window yet, and a host that sends nothing new: the first poll
-- that serves them gives them a window of a second, and after the first poll past its end that serves
-- them they wait no longer, whatever polls come in between, of whatever state of the session and the
-- port, and whatever the worker does to the port before each of them. A poll serves them in a session
-- that is open, whose port waits for no stop, and which waits for its start or has a port that is
-- ready; until such a poll comes, they may wait. The window's end is a time that is not `nil_time`.
pub retry_ends :
    {B U : Type 0} (port_id : ℕ) (first : World B U) (list : List (Turn B U)) (last : Turn B U)
    (link : Link B U)
    → (request_of link).deadline ≡ nil_time
    → IsServed link
    → first.clock.make_timeout_time_ms soft_pending_timeout_ms ≢ nil_time
    → last.0.clock.time_reached (first.clock.make_timeout_time_ms soft_pending_timeout_ms) ≡ true
    → let later = turns port_id list (poll_link first port_id link) in
      let found = record later { port = last.1 later.port } in
      IsServed found → (request_of (poll_link last.0 port_id found)).pending ≡ false
retry_ends port_id first list (last, worker) link e s n t s' =
    let d = first.clock.make_timeout_time_ms soft_pending_timeout_ms in
    let later = turns port_id list (poll_link first port_id link) in
    let found = record later { port = worker later.port } in
    let (start, _) = poll_request first port_id link in
    let (end, _) = poll_request last port_id found in
    let set : Ending d (request_of (poll_link first port_id link)) =
      subst (Ending d) (sym (start s)) (first-Ending first port_id link e) in
    ap (λ (c : PendingCoding). c.pending) (end s')
    ∙ late last port_id d found n t
        (turns-Ending port_id d list (poll_link first port_id link) n set)

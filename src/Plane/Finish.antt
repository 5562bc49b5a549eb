-- ===== src/Plane/Finish.antt =====
-- How a deferred request ends: the outcome of `uart_control_plane_service_pending`, and the flags
-- that a completion leaves.
use pico_uart.Plane.Service.{service_pending, apply_pending}
use pico_uart.Control.Flags.{raise, lower}
use pico_uart.Control.{has_pending_port, pending_should_clear}
use pico_uart.LineCoding.{LineCoding}
use pico_uart.Prelude.{
  by_option, by_test, arith, ap₂, ap, sym, ◌∙◌, subst, not, ◌&&◌, Option, refl, if◌then◌else◌, some,
  none, ◌≡◌, false, true, Bool, ℕ,
}
use pico_uart.Runtime.{backend_error, no_error, timeout_error, Ops, Port, ControlError, Clock}
use pico_uart.Plane.{
  boundary_drained, end_worker_pending, record_error, publish_info, release_pending,
  publish_applied, finish_worker_control, complete_error,
}

-- What the end of a request leaves of the port, and what it publishes.
abbrev Ended : {B : Type 0} → Clock → Bool → LineCoding → ControlError → Port B → Port B → Type 0
Ended clock success c e port p =
    (p.worker.pending ≡ false)
    × (p.backend ≡ port.backend)
    × (p.info ≡ (if success then record port.info { line_coding = c } else port.info))
    × (p.history
        ≡ (if success then port.history else record { reason = e; uptime_us = clock.uptime_us }))

module _ {B : Type 0} (clock : Clock) (port_id : ℕ) where
  release-Ended :
      (success : Bool) (c : LineCoding) (e : ControlError) (port p : Port B)
      → Ended clock success c e port p
      → Ended clock success c e port (release_pending port_id false p)
  unfolding release_pending
  release-Ended success c e port p (h0, h1, h2, h3) =
      elim (pending_should_clear p.soft_pending (has_pending_port p.mailbox port_id) false)
        as (λ t.
          Ended clock success c e port
            (if t then record p { status_flags = lower p.status_flags 8 } else p)) [
              | true ↦ (h0, h1, h2, h3)
              | false ↦ (h0, h1, h2, h3)
            ]

  pub success-Ended :
      (g : ℕ) (c : LineCoding) (e : ControlError) (port : Port B)
      → Ended clock true c e port (finish_worker_control clock port_id g true (some c) e port)
  unfolding finish_worker_control publish_applied publish_info end_worker_pending complete_error
  success-Ended g c e port = release-Ended true c e port _ (refl, refl, refl, refl)

  pub failure-Ended :
      (g : ℕ) (c : LineCoding) (e : ControlError) (port : Port B)
      → Ended clock false c e port (finish_worker_control clock port_id g false none e port)
  unfolding finish_worker_control publish_applied record_error end_worker_pending complete_error
  failure-Ended g c e port = release-Ended false c e port _ (refl, refl, refl, refl)

-- The worker's request may be applied: its boundary is drained, and its deadline has not come.
abbrev pub due : {B : Type 0} → Clock → Port B → Bool
due clock port =
    port.worker.pending
    && boundary_drained port port.worker.tx_boundary_sequence
    && not (clock.time_reached port.worker.deadline)

abbrev pub answer : {B : Type 0} → Ops B → Port B → B × Bool
answer ops port = ops.set_line_coding port.backend port.worker.line_coding

abbrev answers : {B : Type 0} → Option (Ops B) → Port B → Bool
answers none port = false
answers (some ops) port = (answer ops port).1

-- The backend takes the settings of the worker's request.
abbrev pub applied : {B : Type 0} → Port B → Bool
applied port = answers port.ops port

-- The claim of `service_pending_outcome`.
record Outcome {B : Type 0} (clock : Clock) (port p : Port B) : Type 0 where
  settings : p.info ≡ (
      if due clock port && applied port
      then record port.info { line_coding = port.worker.line_coding }
      else port.info)
  waits :
      p.worker.pending ≡ true
      → (clock.time_reached port.worker.deadline ≡ false)
        × (p.worker ≡ port.worker)
        × (p.history ≡ port.history)
        × (p.status_flags ≡ port.status_flags)

module _ {B : Type 0} (clock : Clock) where
  Ended-Outcome :
      (success : Bool) (later : Clock) (e : ControlError) (port p q : Port B)
      → p.info ≡ port.info
      → (due clock port && applied port) ≡ success
      → Ended later success port.worker.line_coding e p q
      → Outcome clock port q
  Ended-Outcome success later e port p q hi hs (h0, h1, h2, h3) = record {
    settings =
        subst
          (λ t.
            q.info
            ≡ (if t then record port.info { line_coding = port.worker.line_coding } else port.info))
          (sym hs)
          (h2
            ∙ ap (λ i. if success then record i { line_coding = port.worker.line_coding } else i)
                hi);
    waits = λ h. ground arith;
  }

  failed-Outcome :
      (later : Clock) (port_id : ℕ) (e : ControlError) (port p : Port B)
      → p.info ≡ port.info
      → (due clock port && applied port) ≡ false
      → Outcome clock port
          (finish_worker_control later port_id port.worker.control_generation false none e p)
  failed-Outcome later port_id e port p hi hs =
      Ended-Outcome false later e port p _ hi hs
        (failure-Ended later port_id port.worker.control_generation port.worker.line_coding e p)

  waits-Outcome :
      (port : Port B) (b : B)
      → (due clock port && applied port) ≡ false
      → (port.worker.pending ≡ true → clock.time_reached port.worker.deadline ≡ false)
      → Outcome clock port (record port { backend = b })
  waits-Outcome port b h k = record {
    settings =
        subst
          (λ t.
            port.info
            ≡ (if t then record port.info { line_coding = port.worker.line_coding } else port.info))
          (sym h) refl;
    waits = λ e. (k e, refl, refl, refl);
  }

  apply-Outcome :
      (later : Clock) (port_id : ℕ) (ops : Ops B) (port : Port B)
      → port.ops ≡ some ops
      → due clock port ≡ true
      → Outcome clock port (apply_pending ops later port_id port)
  unfolding apply_pending
  apply-Outcome later port_id ops port eo d =
      let (b, ok) = answer ops port in
      let both : (due clock port && applied port) ≡ ok = ap₂ ◌&&◌ d (ap (λ o. answers o port) eo) in
      let p1 : Port B = record port { backend = b } in
      let stopped : Port B = record p1 { status_flags = lower (raise p1.status_flags 2) 1 } in
      let P = Outcome clock port in
      by_test P ok
        (λ t. Ended-Outcome true later no_error port p1 _ refl (both ∙ t) (
          success-Ended later port_id port.worker.control_generation port.worker.line_coding
            no_error p1))
        (λ f.
          by_test P (not (ops.is_initialized b))
            (λ _. failed-Outcome later port_id backend_error port stopped refl (both ∙ f))
            (λ _.
              by_test P (later.time_reached port.worker.deadline)
                (λ _. failed-Outcome later port_id timeout_error port p1 refl (both ∙ f))
                (λ _. waits-Outcome port b (both ∙ f) (λ _. ground arith))))

  pending-Outcome :
      (later : Clock) (port_id : ℕ) (port : Port B)
      → Outcome clock port (service_pending clock later port_id port)
  unfolding service_pending
  pending-Outcome later port_id port =
      let P = Outcome clock port in
      let late = failed-Outcome clock port_id timeout_error port port refl in
      by_test P (not port.worker.pending)
        (λ e. waits-Outcome port port.backend (ground arith) (λ h. ground arith))
        (λ e.
          by_test P (not (boundary_drained port port.worker.tx_boundary_sequence))
            (λ d.
              by_test P (clock.time_reached port.worker.deadline) (λ r. late (ground arith))
                (λ r. waits-Outcome port port.backend (ground arith) (λ _. r)))
            (λ d.
              by_option P port.ops _ _
                (λ o. failed-Outcome clock port_id backend_error port port refl (ground arith))
                (λ ops eo.
                  by_test P (clock.time_reached port.worker.deadline) (λ r. late (ground arith))
                    (λ r. apply-Outcome later port_id ops port eo (ground arith)))))

-- The worker serves its request at `clock`, and ends at `later`. The port's published settings change
-- to the request's just when the transmit ring has drained to the request's boundary, the deadline
-- has not come and the backend takes them; else they stay. And the request is still pending after
-- only if its deadline had not come, and then it is as before, with the port's status and the history
-- of errors as before: once its deadline has come the request ends.
pub service_pending_outcome :
    {B : Type 0} (clock later : Clock) (port_id : ℕ) (port : Port B)
    → let p = service_pending clock later port_id port in
      (p.info ≡ (
        if due clock port && applied port
        then record port.info { line_coding = port.worker.line_coding }
        else port.info))
      × (p.worker.pending ≡ true
          → (clock.time_reached port.worker.deadline ≡ false)
            × (p.worker ≡ port.worker)
            × (p.history ≡ port.history)
            × (p.status_flags ≡ port.status_flags))
service_pending_outcome clock later port_id port =
    let o = pending-Outcome clock later port_id port in (o.settings, o.waits)

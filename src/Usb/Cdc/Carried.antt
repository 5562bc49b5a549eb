-- ===== src/Usb/Cdc/Carried.antt =====
-- What the steps of `usb_cdc_poll` in firmware/src/usb/usb_cdc.c before the bridge leave as it is.
use pico_uart.Driver.{queue_line_coding, acceptable, report_control_error, request_channel_start}
use pico_uart.Runtime.{other_error, timeout_error, backend_error, Port, Clock}
use pico_uart.Usb.Cdc.Transfer.{World}
use pico_uart.Usb.Cdc.Alike.{
  start-IsAlike, soft_error-IsAlike, control_error-IsAlike, queue-IsAlike, trans-IsAlike,
  refl-IsAlike, IsAlike,
}
use pico_uart.Usb.Cdc.{
  soft_pending_timeout_ms, time_nil, running, starting, drop_request, start_pending,
  apply_pending_line_coding, Link, Admission,
}
use pico_uart.Usb.Cdc.Session.{admit_start}
use pico_uart.Prelude.{if◌then◌else◌, not, arith, by_test, true, ◌≢◌, ℕ, Bool, ◌∙◌, refl, ◌≡◌}

-- The same counts, FIFOs and backend, and a port that is as ready
abbrev pub IsCarried : {B U : Type 0} → Link B U → Link B U → Type 0
IsCarried link later =
    (later.cdc.stats ≡ link.cdc.stats) × (later.usb ≡ link.usb) × IsAlike link.port later.port

pub by_admission :
    {X : Type 0} (P : X → Type 0) (a : Admission) (p q r : X)
    → (a ≡ start_pending → P p)
    → (a ≡ starting → P q)
    → (a ≡ running → P r)
    → P (elim a as (λ _. X) [ start_pending ↦ p | starting ↦ q | running ↦ r ])
by_admission P start_pending p q r f g h = f refl
by_admission P starting p q r f g h = g refl
by_admission P running p q r f g h = h refl

module _ {B U : Type 0} where
  pub refl-IsCarried : (link : Link B U) → IsCarried link link
  refl-IsCarried link = (refl, refl, refl-IsAlike link.port)

  pub trans-IsCarried : (a b c : Link B U) → IsCarried a b → IsCarried b c → IsCarried a c
  trans-IsCarried a b c (s, u, p) (s', u', p') =
      (s' ∙ s, u' ∙ u, trans-IsAlike a.port b.port c.port p p')

  pub apply-IsCarried :
      (started : Bool) (clock : Clock) (port_id : ℕ) (link : Link B U)
      → let later = apply_pending_line_coding started clock port_id link in
        IsCarried link later × (later.cdc.admission ≡ link.cdc.admission)
  unfolding apply_pending_line_coding drop_request
  apply-IsCarried started clock port_id link =
      let P : Link B U → Type 0 = λ l. IsCarried link l × (l.cdc.admission ≡ link.cdc.admission) in
      let c = link.cdc.line_coding in
      let g = c.control_generation in
      let queued = queue-IsAlike started clock port_id g c.line_coding link.port in
      by_test P (not c.pending) (λ _. (refl-IsCarried link, refl))
        (λ _.
          by_test P
            (clock.time_reached (
              if time_nil c.deadline
              then clock.make_timeout_time_ms soft_pending_timeout_ms
              else c.deadline))
            (λ _. ((refl, refl, soft_error-IsAlike clock port_id g timeout_error link.port), refl))
            (λ _.
              by_test P (not (acceptable link.port c.line_coding))
                (λ _.
                  ((refl, refl, soft_error-IsAlike clock port_id g other_error link.port), refl))
                (λ _.
                  by_test P (queue_line_coding started clock port_id c.line_coding g link.port).0
                    (λ _. ((refl, refl, queued), refl)) (λ _. ((refl, refl, queued), refl)))))

  pub admit_start-IsCarried :
      (w : World B U) (port_id : ℕ) (link : Link B U)
      → link.cdc.admission ≡ start_pending
      → let (started, later) = admit_start w port_id link in
        IsCarried link later
        × (later.cdc.admission ≢ running)
        × (started ≡ true → later.cdc.admission ≡ starting)
  unfolding admit_start
  admit_start-IsCarried w port_id link e =
      let staged = apply_pending_line_coding w.worker_started w.clock port_id link in
      let (s, a) = apply-IsCarried w.worker_started w.clock port_id link in
      let P : Bool × Link B U → Type 0 = λ (started, later).
        IsCarried link later
        × (later.cdc.admission ≢ running)
        × (started ≡ true → later.cdc.admission ≡ starting) in
      let not_yet : staged.cdc.admission ≢ running = λ h. absurd (ground (arith, a ∙ e)) in
      let with_port =
        λ (p : Port B) (h : IsAlike staged.port p). trans-IsAlike link.port staged.port p s.2 h in
      by_test P staged.cdc.line_coding.pending (λ _. (s, not_yet, λ h. absurd (ground arith)))
        (λ _.
          by_test P (not (request_channel_start w.worker_started staged.port).0)
            (λ _. (
              (
                s.0,
                s.1,
                with_port (report_control_error w.clock backend_error staged.port)
                    (control_error-IsAlike w.clock backend_error staged.port),
              ),
              not_yet,
              λ h. absurd (ground arith),
            ))
            (λ _. (
              (
                s.0,
                s.1,
                with_port (request_channel_start w.worker_started staged.port).1
                    (start-IsAlike w.worker_started staged.port),
              ),
              λ h. absurd (ground arith),
              λ h. refl,
            )))

-- ===== src/Driver/Steady.antt =====
-- What the bodies of the worker's loops, other than the one that carries out stops and starts, leave
-- as it is: firmware/src/uart/control/plane.c and `uart_driver_poll_io` of
-- firmware/src/uart/uart_driver.c.
use pico_uart.Driver.{line_coding_acceptable, channel_stop_is_quiesced}
use pico_uart.Control.Flags.{status_ready, has}
use pico_uart.LineCoding.{is_valid, LineCoding}
use pico_uart.Control.{Request, has_pending_port, pending_should_clear}
use pico_uart.Driver.Lifecycle.{service_lifecycle, end_stats_update, begin_stats_update}
use pico_uart.Driver.Sweep.{poll_port}
use pico_uart.Runtime.{
  Lifecycle, other_error, port_count, no_error, backend_error, timeout_error, ControlError, Clock,
  Port,
}
use pico_uart.Plane.Service.{
  line_coding_matches, answer_request, take_control, service_mailbox, defer_request, apply_pending,
  accept_request, service_pending, service_deferred,
}
use pico_uart.Plane.{
  line_coding_error, boundary_drained, complete_error, end_worker_pending, set_worker_pending,
  record_error, publish_info, publish_applied, release_pending, finish_worker_control,
  finish_mailbox_control,
}
use pico_uart.Prelude.{
  ◌∙◌, arith, ◌&&◌, ap, refl, ◌!=◌, leb, by_test, some, ◌||◌, none, false, not, by_option, true,
  Option, add32, if◌then◌else◌, ℕ, Bool, ◌≡◌,
}

-- The lifecycle of one port is that of another.
pub record IsSteady {B : Type 0} (port p : Port B) : Type 0 where
  pub steady : p.lifecycle ≡ port.lifecycle

module _ {B : Type 0} where
  when-IsSteady :
      (t : Bool) (port : Port B) {p q : Port B}
      → IsSteady port p
      → IsSteady port q
      → IsSteady port (if t then p else q)
  when-IsSteady true port v w = v
  when-IsSteady false port v w = w

  release-IsSteady :
      (port_id : ℕ) (waits : Bool) (port p : Port B)
      → p.lifecycle ≡ port.lifecycle
      → IsSteady port (release_pending port_id waits p)
  unfolding release_pending
  release-IsSteady port_id waits port p e =
      when-IsSteady (pending_should_clear p.soft_pending (has_pending_port p.mailbox port_id) waits)
        port (record { steady = e }) (record { steady = e })

  worker-IsSteady :
      (clock : Clock) (port_id g : ℕ) (success : Bool) (c : Option LineCoding) (e : ControlError)
      (port p : Port B)
      → p.lifecycle ≡ port.lifecycle
      → IsSteady port (finish_worker_control clock port_id g success c e p)
  unfolding finish_worker_control publish_applied publish_info record_error end_worker_pending
      complete_error
  worker-IsSteady clock port_id g true none e port p h = record {
    steady = (release-IsSteady port_id false port _ h).steady;
  }
  worker-IsSteady clock port_id g false none e port p h = record {
    steady = (release-IsSteady port_id false port _ h).steady;
  }
  worker-IsSteady clock port_id g true (some c) e port p h = record {
    steady = (release-IsSteady port_id false port _ h).steady;
  }
  worker-IsSteady clock port_id g false (some c) e port p h = record {
    steady = (release-IsSteady port_id false port _ h).steady;
  }

  mailbox-IsSteady :
      (clock : Clock) (port_id g : ℕ) (success ends : Bool) (kept : ℕ) (keep : Bool)
      (e : ControlError) (port p : Port B)
      → p.lifecycle ≡ port.lifecycle
      → IsSteady port (finish_mailbox_control clock port_id g success ends kept keep e p)
  unfolding finish_mailbox_control complete_error record_error end_worker_pending
  mailbox-IsSteady clock port_id g success ends kept keep e port p h =
      let p1 = if not success then record_error clock e p else p in
      let p2 = if ends || keep then end_worker_pending p1 else p1 in
      let p3 = if keep then complete_error kept true p2 else p2 in
      let v1 : IsSteady port p1 =
        when-IsSteady (not success) port (record { steady = h }) (record { steady = h }) in
      let v2 : IsSteady port p2 =
        when-IsSteady (ends || keep) port (record { steady = v1.steady }) v1 in
      let v3 : IsSteady port p3 = when-IsSteady keep port (record { steady = v2.steady }) v2 in
      record { steady = (release-IsSteady port_id p3.worker.pending port p3 v3.steady).steady }

  pending-IsSteady :
      (clock later : Clock) (port_id : ℕ) (port p : Port B)
      → p.lifecycle ≡ port.lifecycle
      → IsSteady port (service_pending clock later port_id p)
  unfolding service_pending apply_pending
  pending-IsSteady clock later port_id port p h =
      let here : IsSteady port p = record { steady = h } in
      let ends =
        λ (t : Clock) (s : Bool) (c : Option LineCoding) (e : ControlError) (q : Port B)
            (k : q.lifecycle ≡ port.lifecycle).
          worker-IsSteady t port_id p.worker.control_generation s c e port q k in
      let timed_out = ends clock false none timeout_error p h in
      by_test (IsSteady port) (not p.worker.pending) (λ _. here)
        (λ _.
          by_test (IsSteady port) (not (boundary_drained p p.worker.tx_boundary_sequence))
            (λ _. when-IsSteady (clock.time_reached p.worker.deadline) port timed_out here)
            (λ _.
              by_option (IsSteady port) p.ops _ _ (λ _. ends clock false none backend_error p h)
                (λ ops _. when-IsSteady (clock.time_reached p.worker.deadline) port timed_out (
                  when-IsSteady (ops.set_line_coding p.backend p.worker.line_coding).1 port
                    (ends later true (some p.worker.line_coding) no_error _ h)
                    (when-IsSteady _ port (ends later false none backend_error _ h) (
                      when-IsSteady (later.time_reached p.worker.deadline) port
                        (ends later false none timeout_error _ h) (record { steady = h })))))))

  pub deferred-IsSteady :
      (clock later : Clock) (port_id : ℕ) (p : Port B)
      → IsSteady p (service_deferred clock later port_id p)
  unfolding service_deferred
  deferred-IsSteady clock later port_id p =
      let here : IsSteady p p = record { steady = refl } in
      let began = record p { stats_sequence = add32 p.stats_sequence 1 } in
      let v = pending-IsSteady clock later port_id p began refl in
      when-IsSteady (not p.worker.pending) p here (
        when-IsSteady (not (has p.status_flags status_ready)) p here (record { steady = v.steady }))

  accept-IsSteady :
      (clock : Clock) (request : Request) (prior : Bool) (port p : Port B)
      → p.lifecycle ≡ port.lifecycle
      → IsSteady port (accept_request clock request prior p)
  unfolding accept_request publish_info defer_request set_worker_pending
  accept-IsSteady clock request prior port p h =
      let c = request.line_coding in
      let g = request.control_generation in
      let refused =
        mailbox-IsSteady clock request.port_id g false (not prior) 0 false (line_coding_error p c)
          port p h in
      let matched =
        mailbox-IsSteady clock request.port_id g true (not prior) p.worker.control_generation prior
          no_error port (publish_info c p) h in
      when-IsSteady (leb port_count request.port_id) port (record { steady = h })
        (when-IsSteady (not (is_valid c)) port refused (
          when-IsSteady (line_coding_matches p c) port matched (
            when-IsSteady (not (line_coding_acceptable p c)) port refused (record { steady = h }))))

  pub service_mailbox-IsSteady :
      (clock : Clock) (port_id : ℕ) (p : Port B) → IsSteady p (service_mailbox clock port_id p)
  unfolding service_mailbox take_control answer_request
  service_mailbox-IsSteady clock port_id p =
      let taken = (take_control p).0 in
      let request = (take_control p).1 in
      let prior = (take_control p).2 in
      let p1 = (take_control p).3 in
      let v : IsSteady p p1 =
        by_test (λ (r : Bool × Request × Bool × Port B). IsSteady p r.3)
          (not (has p.status_flags status_ready)) (λ _. record { steady = refl })
          (λ _. record { steady = refl }) in
      when-IsSteady (not taken) p v (
        when-IsSteady (request.port_id != port_id) p
          (mailbox-IsSteady clock port_id request.control_generation false (not prior) 0 false
            other_error p p1 v.steady)
          (accept-IsSteady clock request prior p p1 v.steady))

  pub poll-IsSteady : (p : Port B) → IsSteady p (poll_port p)
  unfolding poll_port begin_stats_update end_stats_update
  poll-IsSteady p =
      by_option (IsSteady p) p.ops _ _ (λ _. record { steady = refl })
        (λ ops _.
          when-IsSteady (channel_stop_is_quiesced p || not (ops.is_initialized p.backend)) p
            (record { steady = refl }) (record { steady = refl }))

  -- A stop that USB has not quiesced waits.
  pub waits :
      (clock : Clock) (port_id : ℕ) (port : Port B)
      → port.lifecycle.stop_pending ≡ true
      → channel_stop_is_quiesced port ≡ false
      → service_lifecycle clock port_id port ≡ port
  unfolding service_lifecycle channel_stop_is_quiesced
  waits clock port_id port e q =
      by_test (λ p. p ≡ port) (not port.lifecycle.stop_pending && not port.lifecycle.start_pending)
        (λ _. refl)
        (λ _.
          by_test (λ p. p ≡ port) (port.lifecycle.stop_pending && not port.lifecycle.usb_quiesced)
            (λ _. refl) (λ f. absurd (ground arith)))

  pub still_stops :
      (p port : Port B)
      → IsSteady port p
      → port.lifecycle.stop_pending ≡ true
      → p.lifecycle.stop_pending ≡ true
  still_stops p port v e = ap (λ (l : Lifecycle). l.stop_pending) v.steady ∙ e

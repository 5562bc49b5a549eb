-- ===== src/Driver/Opening.antt =====
-- What the worker's round of `uart_driver_service_channel_lifecycle` makes of a start that core 0
-- asked for.
use pico_uart.Driver.Starts.{can_start, channel_starts}
use pico_uart.Driver.Outcome.{started_flags}
use pico_uart.Control.Flags.{has}
use pico_uart.LineCoding.{is_valid, LineCoding}
use pico_uart.Control.{has_pending_port, pending_should_clear, Request}
use pico_uart.Runtime.{ControlError, backend_error, Clock, Port}
use pico_uart.Plane.{
  complete_error, end_worker_pending, is_null_ops, record_error, publish_info, publish_applied,
  finish_worker_control, release_pending,
}
use pico_uart.Plane.Service.{take_initial, start_backend, start_taken, start_port, try_start}
use pico_uart.Prelude.{
  sym, ◌∙◌, ap, subst, ◌&&◌, Option, arith, ◌==◌, if◌then◌else◌, ◌||◌, not, by_test, by_option, ℕ,
  Bool, ◌≡◌, true, false, none, some, refl,
}
use pico_uart.Driver.Lifecycle.{
  stop_backend, reset_stopped, service_lifecycle, publish_started, service_start, end_stats_update,
  begin_stats_update, consume_start, clear_baseline, start_channel,
}

-- The port as it is when the start is taken
abbrev opening : {B : Type 0} → Port B → Port B
opening port = record port { lifecycle = record port.lifecycle { start_pending = false } }

-- The lifecycle of one port is that of another.
record IsAlong {B : Type 0} (port p : Port B) : Type 0 where
  same : p.lifecycle ≡ port.lifecycle

module _ {B : Type 0} where
  release-IsAlong :
      (port_id : ℕ) (port p : Port B)
      → p.lifecycle ≡ port.lifecycle
      → IsAlong port (release_pending port_id false p)
  unfolding release_pending
  release-IsAlong port_id port p e =
      by_test (IsAlong port)
        (pending_should_clear p.soft_pending (has_pending_port p.mailbox port_id) false)
        (λ _. record { same = e }) (λ _. record { same = e })

  finish-IsAlong :
      (clock : Clock) (port_id g : ℕ) (success : Bool) (c : Option LineCoding) (e : ControlError)
      (port p : Port B)
      → p.lifecycle ≡ port.lifecycle
      → (finish_worker_control clock port_id g success c e p).lifecycle ≡ port.lifecycle
  unfolding finish_worker_control publish_applied publish_info record_error end_worker_pending
      complete_error
  finish-IsAlong clock port_id g true none e port p h = (release-IsAlong port_id port _ h).same
  finish-IsAlong clock port_id g false none e port p h = (release-IsAlong port_id port _ h).same
  finish-IsAlong clock port_id g true (some c) e port p h = (release-IsAlong port_id port _ h).same
  finish-IsAlong clock port_id g false (some c) e port p h = (release-IsAlong port_id port _ h).same

  try_start-IsAlong :
      (port_id : ℕ) (taken : Bool) (request : Request) (c : LineCoding) (p : Port B)
      → IsAlong p (try_start port_id taken request c p).1
  unfolding try_start start_backend
  try_start-IsAlong port_id taken request c p =
      let P : Bool × Port B → Type 0 = λ r. IsAlong p r.1 in
      let here : IsAlong p p = record { same = refl } in
      by_option P p.ops _ _ (λ _. here)
        (λ ops _.
          by_test P (not taken || request.port_id == port_id)
            (λ _.
              by_test P (not (is_valid c) || not (ops.line_coding_acceptable c)) (λ _. here)
                (λ _.
                  by_test P (not (ops.set_line_coding p.backend c).1) (λ _. record { same = refl })
                    (λ _. record { same = refl })))
            (λ _. here))

  started-IsAlong :
      (clock : Clock) (port_id : ℕ) (taken : Bool) (request : Request) (c : LineCoding) (p : Port B)
      → IsAlong p (start_taken clock port_id taken request c p).1
  unfolding start_taken
  started-IsAlong clock port_id taken request c p =
      let t =
        try_start-IsAlong port_id taken request (if taken then request.line_coding else c) p in
      by_test (IsAlong p) taken
        (λ _. record {
          same =
              finish-IsAlong clock port_id request.control_generation _ _ backend_error p _ t.same;
        })
        (λ _. t)

  baseline-IsAlong :
      (ok : Bool) (port p : Port B)
      → p.lifecycle ≡ port.lifecycle
      → IsAlong port (clear_baseline ok p)
  unfolding clear_baseline
  baseline-IsAlong ok port p e =
      by_option (IsAlong port) p.ops _ _ (λ _. record { same = e })
        (λ ops _. by_test (IsAlong port) ok (λ _. record { same = e }) (λ _. record { same = e }))

  channel-IsAlong :
      (clock : Clock) (port_id : ℕ) (p : Port B) → IsAlong p (start_channel clock port_id p).1
  unfolding start_channel start_port take_initial begin_stats_update end_stats_update
  channel-IsAlong clock port_id p =
      let P : Bool × Port B → Type 0 = λ r. IsAlong p r.1 in
      by_test P (is_null_ops p.ops) (λ _. record { same = refl })
        (λ _. record {
          same = (baseline-IsAlong _ p _ (started-IsAlong clock port_id _ _ _ _).same).same;
        })

  taken_start :
      (port : Port B)
      → port.lifecycle.stop_pending ≡ false
      → port.lifecycle.start_pending ≡ true
      → consume_start port ≡ (true, opening port)
  unfolding consume_start
  taken_start port s n =
      by_test (λ r. r ≡ (true, opening port))
        (not port.lifecycle.start_pending || port.lifecycle.stop_pending)
        (λ t. absurd (ground arith)) (λ _. refl)

-- The flags that `service_start_lem` is about
record IsOpened {B : Type 0} (ok : Bool) (p : Port B) : Type 0 where
  ready : has p.status_flags 1 ≡ ok
  failed : has p.status_flags 2 ≡ not ok

module _ {B : Type 0} (clock : Clock) (port_id : ℕ) where
  published-IsOpened :
      (ok : Bool) (port p : Port B)
      → IsAlong port p
      → port.lifecycle.stop_pending ≡ false
      → port.lifecycle.start_pending ≡ false
      → IsOpened ok (publish_started ok p)
  published-IsOpened ok port p a s n =
      let f =
        started_flags ok p (ap (λ l. l.stop_pending) a.same ∙ s)
          (ap (λ l. l.start_pending) a.same ∙ n) in
      record { ready = f.0; failed = f.1 }

  start-IsOpened :
      (port : Port B)
      → port.lifecycle.stop_pending ≡ false
      → port.lifecycle.start_pending ≡ true
      → IsOpened (start_channel clock port_id (opening port)).0 (service_start clock port_id port)
  unfolding service_start
  start-IsOpened port s n = rw (taken_start port s n) (
      published-IsOpened (start_channel clock port_id (opening port)).0 (opening port) _
        (channel-IsAlong clock port_id (opening port)) s refl)

  service-IsOpened :
      (port : Port B)
      → port.lifecycle.stop_pending ≡ false
      → port.lifecycle.start_pending ≡ true
      → IsOpened
          (start_channel clock port_id (opening port)).0
          (service_lifecycle clock port_id port)
  unfolding service_lifecycle
  service-IsOpened port s n =
      let P = IsOpened (start_channel clock port_id (opening port)).0 in
      by_test P (not port.lifecycle.stop_pending && not port.lifecycle.start_pending)
        (λ t. absurd (ground arith))
        (λ _.
          by_test P (port.lifecycle.stop_pending && not port.lifecycle.usb_quiesced)
            (λ t. absurd (ground arith))
            (λ _.
              subst
                (λ t. P (
                  service_start clock port_id
                    (if t then reset_stopped (stop_backend port) else port)))
                (sym s) (start-IsOpened port s n)))

-- A port that is asked to start, with no stop that waits: after the worker's round, in which core 0
-- asks for nothing new, the port is READY exactly if it has a backend and this could start: the
-- settings of the request in the mailbox, which is of this port, or the port's own settings where
-- there is none, are valid, the backend allows and takes them, and it restarts. In every other
-- case the port is INIT_FAILED, and never both.
pub service_start_lem :
    {B : Type 0} (clock : Clock) (port_id : ℕ) (port : Port B)
    → port.lifecycle.stop_pending ≡ false
    → port.lifecycle.start_pending ≡ true
    → let p = service_lifecycle clock port_id port in
      (has p.status_flags 1 ≡ can_start port_id port)
      × (has p.status_flags 2 ≡ not (can_start port_id port))
service_start_lem clock port_id port s n =
    let o = service-IsOpened clock port_id port s n in
    let c = channel_starts clock port_id (opening port) in (o.ready ∙ c, o.failed ∙ ap not c)

-- ===== src/Driver/Ownership/Worker.antt =====
-- The worker's critical sections of firmware/src/uart/control/plane.c and of the lifecycle loop of
-- firmware/src/uart/uart_driver.c keep a port's ownership.
use pico_uart.LineCoding.{LineCoding, is_valid}
use pico_uart.Plane.{boundary_drained, line_coding_error}
use pico_uart.Control.Flags.{raise, lower, raise_lem, lower_lem}
use pico_uart.Control.{Request, take_request, reset}
use pico_uart.Driver.Lifecycle.{
  end_stats_update, begin_stats_update, stop_backend, consume_start, publish_started, reset_stopped,
}
use pico_uart.Plane.Service.{
  start_backend, try_start, service_pending, start_taken, apply_pending, line_coding_acceptable,
  line_coding_matches, answer_request, take_control, accept_request, defer_request, take_initial,
}
use pico_uart.Runtime.{
  timeout_error, backend_error, Ops, port_count, no_error, other_error, Clock, Port,
}
use pico_uart.Prelude.{
  add32, none, some, ◌==◌, if◌then◌else◌, subst, leb, true, ◌!=◌, false, ◌||◌, not, arith, Bool, ℕ,
}
use pico_uart.Driver.Ownership.{
  ops-IsOwned, case-IsOwned, finish_worker-IsOwned, publish_info-IsHeld, test-IsOwned,
  finish_mailbox-IsOwned, set_worker_pending-IsOwned, when-IsOwned, whose-IsOwned, IsOwned,
}

module _ {B : Type 0} {port : Port B} where
  pub defer-IsOwned :
      (clock : Clock) (request : Request) (b : Bool)
      → IsOwned request.port_id port
      → IsOwned request.port_id (defer_request clock request b port)
  unfolding defer_request
  defer-IsOwned clock request b v =
      set_worker_pending-IsOwned request.control_generation (record {
        blocks = v.held.blocks;
        addressed = v.held.addressed;
        quiesced = v.held.quiesced;
      })

  pub accept-IsOwned :
      (clock : Clock) (request : Request) (b : Bool)
      → IsOwned request.port_id port
      → IsOwned request.port_id (accept_request clock request b port)
  unfolding accept_request
  accept-IsOwned clock request b v =
      let g = request.control_generation in
      let no =
        finish_mailbox-IsOwned clock g false (not b) 0 false
          (line_coding_error port request.line_coding) v.held in
      let yes =
        finish_mailbox-IsOwned clock g true (not b) port.worker.control_generation b no_error
          (publish_info-IsHeld request.line_coding v.held) in
      when-IsOwned (leb port_count request.port_id) v (
        when-IsOwned (not (is_valid request.line_coding)) no (
          when-IsOwned (line_coding_matches port request.line_coding) yes (
            when-IsOwned (not (line_coding_acceptable port request.line_coding)) no
              (defer-IsOwned clock request b v))))

module _ {B : Type 0} {port_id : ℕ} {port : Port B} where
  pub take_control-IsOwned : IsOwned port_id port → IsOwned port_id (take_control port).3
  unfolding take_control take_request
  take_control-IsOwned v = ground arith

  pub answer-IsOwned :
      (clock : Clock) (request : Request) (b : Bool)
      → IsOwned port_id port
      → IsOwned port_id (answer_request clock port_id request b port)
  unfolding answer_request
  answer-IsOwned clock request b v =
      test-IsOwned (request.port_id != port_id)
        (finish_mailbox-IsOwned clock request.control_generation false (not b) 0 false other_error
          v.held)
        (λ e.
          subst (λ k. IsOwned k port → IsOwned k (accept_request clock request b port))
            (ground arith) (accept-IsOwned clock request b) v)

  pub take_initial-IsOwned : IsOwned port_id port → IsOwned port_id (take_initial port).2
  unfolding take_initial take_request
  take_initial-IsOwned v = ground arith

  pub reset_stopped-IsOwned : IsOwned port_id port → IsOwned port_id (reset_stopped port)
  unfolding reset_stopped reset
  reset_stopped-IsOwned v = ground (
    arith,
    lower_lem port.status_flags 3 (omega arith),
    lower_lem (lower port.status_flags 3) 8 (omega arith),
  )

  pub consume_start-IsOwned : IsOwned port_id port → IsOwned port_id (consume_start port).1
  unfolding consume_start
  consume_start-IsOwned v =
      whose-IsOwned (not port.lifecycle.start_pending || port.lifecycle.stop_pending) _ _ v
        (ground arith)

  pub publish_started-IsOwned :
      (ok : Bool) → IsOwned port_id port → IsOwned port_id (publish_started ok port)
  unfolding publish_started
  publish_started-IsOwned ok v =
      when-IsOwned (port.lifecycle.stop_pending || port.lifecycle.start_pending) v (
        when-IsOwned ok
          (ground (
            arith,
            lower_lem port.status_flags 2 (omega arith),
            raise_lem (lower port.status_flags 2) 1,
          ))
          (ground (
            arith,
            raise_lem port.status_flags 2,
            lower_lem (raise port.status_flags 2) 1 (omega arith),
          )))

  pub backend-IsOwned :
      (backend : B) → IsOwned port_id port → IsOwned port_id (record port { backend = backend })
  backend-IsOwned backend v = record {
    held = record {
      blocks = v.held.blocks;
      addressed = v.held.addressed;
      quiesced = v.held.quiesced;
    };
    owner = v.owner;
  }

  pub stats-IsOwned :
      (n : ℕ) → IsOwned port_id port → IsOwned port_id (record port { stats_sequence = n })
  stats-IsOwned n v = record {
    held = record {
      blocks = v.held.blocks;
      addressed = v.held.addressed;
      quiesced = v.held.quiesced;
    };
    owner = v.owner;
  }

  try_start-IsOwned :
      (taken : Bool) (request : Request) (c : LineCoding)
      → IsOwned port_id port
      → IsOwned port_id (try_start port_id taken request c port).1
  unfolding try_start start_backend
  try_start-IsOwned taken request c v = case-IsOwned port.ops _ _ v (λ ops.
      whose-IsOwned (not taken || request.port_id == port_id) _ _
        (whose-IsOwned (not (is_valid c) || not (ops.line_coding_acceptable c)) _ _ v (
          whose-IsOwned (not (ops.set_line_coding port.backend c).1) _ _ (backend-IsOwned _ v)
            (backend-IsOwned _ v)))
        v)

  pub start_taken-IsOwned :
      (clock : Clock) (taken : Bool) (request : Request) (c : LineCoding)
      → IsOwned port_id port
      → IsOwned port_id (start_taken clock port_id taken request c port).1
  unfolding start_taken
  start_taken-IsOwned clock taken request c v =
      let initial = if taken then request.line_coding else c in
      let w = try_start-IsOwned taken request initial v in
      when-IsOwned taken
        (finish_worker-IsOwned clock request.control_generation _ _ backend_error w.held) w

module _ {B : Type 0} {port_id : ℕ} {port : Port B} where
  pub stop_backend-IsOwned : IsOwned port_id port → IsOwned port_id (stop_backend port)
  unfolding stop_backend begin_stats_update end_stats_update
  stop_backend-IsOwned v =
      let n = add32 port.stats_sequence 1 in
      ops-IsOwned port.ops _ _ v (λ ops.
        when-IsOwned (ops.is_initialized port.backend)
          (stats-IsOwned (add32 n 1)
            (backend-IsOwned (ops.deinit port.backend) (stats-IsOwned n v)))
          v)

  apply-IsOwned :
      (ops : Ops B) (later : Clock)
      → IsOwned port_id port
      → IsOwned port_id (apply_pending ops later port_id port)
  unfolding apply_pending
  apply-IsOwned ops later v =
      let (backend, applied) = ops.set_line_coding port.backend port.worker.line_coding in
      let w = backend-IsOwned backend v in
      let g = port.worker.control_generation in
      when-IsOwned applied
        (finish_worker-IsOwned later g true (some port.worker.line_coding) no_error w.held)
        (when-IsOwned (not (ops.is_initialized backend))
          (finish_worker-IsOwned later g false none backend_error (
            ground (
              arith,
              raise_lem port.status_flags 2,
              lower_lem (raise port.status_flags 2) 1 (omega arith),
            )))
          (when-IsOwned (later.time_reached port.worker.deadline)
            (finish_worker-IsOwned later g false none timeout_error w.held) w))

  pub service_pending-IsOwned :
      (clock later : Clock)
      → IsOwned port_id port
      → IsOwned port_id (service_pending clock later port_id port)
  unfolding service_pending
  service_pending-IsOwned clock later v =
      let g = port.worker.control_generation in
      let late = finish_worker-IsOwned clock g false none timeout_error v.held in
      when-IsOwned (not port.worker.pending) v (
        when-IsOwned (not (boundary_drained port port.worker.tx_boundary_sequence))
          (when-IsOwned (clock.time_reached port.worker.deadline) late v)
          (ops-IsOwned port.ops _ _ (finish_worker-IsOwned clock g false none backend_error v.held)
            (λ ops.
              when-IsOwned (clock.time_reached port.worker.deadline) late
                (apply-IsOwned ops later v))))

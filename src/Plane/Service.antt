-- ===== src/Plane/Service.antt =====
-- The worker's side of firmware/src/uart/control/plane.c: taking requests, applying deferred ones,
-- and starting a port. `clock` is the time of a call, and `later` the time after the backend's call.
use pico_uart.Runtime.{port_count, no_error, timeout_error, other_error}
use pico_uart.Prelude.{
  leb, ◌==◌, some, true, ◌||◌, not, ◌&&◌, Option, none, ◌!=◌, false, if◌then◌else◌, add32, Bool, ℕ,
}
use pico_uart.Plane.{
  backend_error, worker_should_set_deadline, status_ready, same_line_coding, status_init_failed,
  has, zero_request, is_valid, take_request, raise, LineCoding, lower, Request, Port, Ops, Clock,
  line_coding_error, finish_worker_control, finish_mailbox_control, set_worker_pending,
  boundary_drained, publish_info, apply_timeout_ms,
}

module _ {B : Type 0} where
  -- The worker's attempt to apply the settings, once the transmit ring has drained in time.
  unfoldable pub apply_pending : Ops B → Clock → ℕ → Port B → Port B
  apply_pending ops later port_id port =
      let (backend, applied) = ops.set_line_coding port.backend port.worker.line_coding in
      let generation = port.worker.control_generation in
      let p1 = record port { backend = backend } in
      let stopped = record p1 {
        status_flags = lower (raise p1.status_flags status_init_failed) status_ready;
      } in
      if applied
      then finish_worker_control later port_id generation true (some port.worker.line_coding)
          no_error p1
      else if not (ops.is_initialized backend)
      then finish_worker_control later port_id generation false none backend_error stopped
      else if later.time_reached port.worker.deadline
      then finish_worker_control later port_id generation false none timeout_error p1
      else p1

  unfoldable pub service_pending : Clock → Clock → ℕ → Port B → Port B
  service_pending clock later port_id port =
      let generation = port.worker.control_generation in
      let timed_out =
        finish_worker_control clock port_id generation false none timeout_error port in
      if not port.worker.pending
      then port
      else if not (boundary_drained port port.worker.tx_boundary_sequence)
      then (if clock.time_reached port.worker.deadline then timed_out else port)
      else elim port.ops [
        | none ↦ finish_worker_control clock port_id generation false none backend_error port
        | some ops ↦
            if clock.time_reached port.worker.deadline
            then timed_out
            else apply_pending ops later port_id port
      ]

  unfoldable pub line_coding_matches : Port B → LineCoding → Bool
  line_coding_matches port c = elim port.ops [
    | none ↦ false
    | some ops ↦ ops.line_coding_matches port.backend c
  ]

  unfoldable pub line_coding_acceptable : Port B → LineCoding → Bool
  line_coding_acceptable port c = elim port.ops [
    | none ↦ false
    | some ops ↦ ops.line_coding_acceptable c
  ]

  -- A request that waits for the transmit ring to drain.
  unfoldable pub defer_request : Clock → Request → Bool → Port B → Port B
  defer_request clock request was_pending port =
      let same_request =
        was_pending && same_line_coding port.worker.line_coding request.line_coding in
      set_worker_pending request.control_generation (record port {
        worker = record port.worker {
          line_coding = request.line_coding;
          deadline =
              if worker_should_set_deadline was_pending same_request
              then clock.make_timeout_time_ms apply_timeout_ms
              else port.worker.deadline;
          tx_boundary_sequence = request.tx_boundary_sequence;
        };
      })

  -- `uart_control_plane_set_line_coding`
  unfoldable pub accept_request : Clock → Request → Bool → Port B → Port B
  accept_request clock request prior_pending port =
      let c = request.line_coding in
      let generation = request.control_generation in
      let refused =
        finish_mailbox_control clock request.port_id generation false (not prior_pending) 0 false
          (line_coding_error port c) port in
      let matched =
        finish_mailbox_control clock request.port_id generation true (not prior_pending)
          port.worker.control_generation prior_pending no_error (publish_info c port) in
      if leb port_count request.port_id
      then port
      else if not (is_valid c)
      then refused
      else if line_coding_matches port c
      then matched
      else if not (line_coding_acceptable port c)
      then refused
      else defer_request clock request prior_pending port

  -- The first critical section of `uart_control_plane_service`: the request taken, if any, and
  -- whether the worker had one before.
  unfoldable pub take_control : Port B → Bool × Request × Bool × Port B
  take_control port =
      let (taken, slot, request) = take_request port.mailbox zero_request in
      let prior_pending = taken && port.worker.pending in
      let provisional = record port.worker {
        pending = true;
        control_generation = request.control_generation;
      } in
      if not (has port.status_flags status_ready) then (false, zero_request, false, port) else (
        taken,
        request,
        prior_pending,
        record port {
          mailbox = slot;
          worker = if taken && not prior_pending then provisional else port.worker;
        },
      )

  -- The rest of the first loop's body, for a request that was taken.
  unfoldable pub answer_request : Clock → ℕ → Request → Bool → Port B → Port B
  answer_request clock port_id request prior_pending port =
      if request.port_id != port_id
      then finish_mailbox_control clock port_id request.control_generation false (not prior_pending)
          0 false other_error port
      else accept_request clock request prior_pending port

  -- The bodies of the two loops of `uart_control_plane_service`.
  unfoldable pub service_mailbox : Clock → ℕ → Port B → Port B
  service_mailbox clock port_id port =
      let (taken, request, prior_pending, p1) = take_control port in
      if not taken then p1 else answer_request clock port_id request prior_pending p1

  unfoldable pub service_deferred : Clock → Clock → ℕ → Port B → Port B
  service_deferred clock later port_id port =
      let began = record port { stats_sequence = add32 port.stats_sequence 1 } in
      let served = service_pending clock later port_id began in
      if not port.worker.pending
      then port
      else if not (has port.status_flags status_ready)
      then port
      else record served { stats_sequence = add32 served.stats_sequence 1 }

  -- The critical section of `uart_control_plane_start_port`.
  unfoldable pub take_initial : Port B → Bool × Request × Port B
  take_initial port =
      let (taken, slot, request) = take_request port.mailbox zero_request in
      let owned = record port.worker {
        pending = true;
        control_generation = request.control_generation;
      } in
      (
        taken,
        request,
        record port { mailbox = slot; worker = if taken then owned else port.worker },
      )

  -- The chain of calls of the backend, each made if the ones before succeeded.
  unfoldable pub start_backend : Ops B → LineCoding → Port B → Bool × Port B
  start_backend ops initial port =
      let (b1, staged) = ops.set_line_coding port.backend initial in
      let (b2, restarted) = ops.restart b1 in
      if not (is_valid initial) || not (ops.line_coding_acceptable initial)
      then (false, port)
      else if not staged
      then (false, record port { backend = b1 })
      else (restarted, record port { backend = b2 })

  unfoldable pub try_start : ℕ → Bool → Request → LineCoding → Port B → Bool × Port B
  try_start port_id taken request initial port = elim port.ops [
    | none ↦ (false, port)
    | some ops ↦
        if not taken || request.port_id == port_id
        then start_backend ops initial port
        else (false, port)
  ]

  -- After the critical section.
  unfoldable pub start_taken : Clock → ℕ → Bool → Request → LineCoding → Port B → Bool × Port B
  start_taken clock port_id taken request previous port =
      let initial = if taken then request.line_coding else previous in
      let (started, p1) = try_start port_id taken request initial port in
      let applied : Option LineCoding = if started then some request.line_coding else none in
      (
        started,
        if taken
            then finish_worker_control clock port_id request.control_generation started applied
                backend_error p1
            else p1,
      )

  unfoldable pub start_port : Clock → ℕ → Port B → Bool × Port B
  start_port clock port_id port =
      let (taken, request, p1) = take_initial port in
      start_taken clock port_id taken request port.info.line_coding p1

  unfoldable pub tx_launch_allowed : Port B → Bool
  tx_launch_allowed port =
      not port.worker.pending || not (boundary_drained port port.worker.tx_boundary_sequence)

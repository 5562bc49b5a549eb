-- ===== src/Driver/Tests.antt =====
-- The driver's theorems at a port whose backend counts the settings it has taken, and whose transmit
-- ring is drained.
use pico_uart.Driver.Starts.{can_start}
use pico_uart.Driver.Opening.{service_start_lem}
use pico_uart.Plane.Flags.{finish_flags}
use pico_uart.Driver.Ownership.Steps.Hold.{IsHolding}
use pico_uart.Control.{has_pending_port, zero_request}
use pico_uart.Plane.Finish.{service_pending_outcome, applied, due}
use pico_uart.Driver.Outcome.{service_stop}
use pico_uart.Driver.Start.Rest.{init_at_rest, AllPorts}
use pico_uart.Driver.Sweep.{worker_round_lem, poll_port, each, worker_round}
use pico_uart.Driver.Ownership.{requested}
use pico_uart.Control.Flags.{has}
use pico_uart.Driver.{port_is_ready, port_tx_is_blocked, fill_port, mark_control_pending}
use pico_uart.Plane.{finish_worker_control}
use pico_uart.Driver.Start.{State}
use pico_uart.Plane.Service.{service_mailbox, service_deferred, service_pending}
use pico_uart.Driver.Lifecycle.{zero_pending, service_lifecycle}
use pico_uart.Ring.{Ring}
use pico_uart.LineCoding.{LineCoding}
use pico_uart.Runtime.{no_error, pio_backend, timeout_error, PortInfo, Ops, Port, Clock}
use pico_uart.Driver.Start.{init}
use pico_uart.Prelude.{
  not, arith, ◌<◌, ◌&&◌, if◌then◌else◌, [], ◌||◌, ◌≡◌, ◌+◌, ◌*◌, ℕ, ◌∷◌, List, refl, true, false,
  none, some,
}
use pico_uart.Driver.Ownership.Steps.{
  Worker, IsQuiet, Reach, quiet, next, core0, core1, mark_call, queue_call, mailbox_body, idle,
  usb_call, work,
}
use pico_uart.Driver.Ownership.Steps.Blocked.{tx_blocked_iff_requested, fill_while_requested}

abbrev ring : Ring
ring = record {
  storage = 0 ∷ 0 ∷ 0 ∷ 0 ∷ [];
  size = 4;
  mask = 3;
  producer = 0;
  consumer = 0;
  high_watermark = 0;
  overflow_count = 0;
  producer_reserved_sequence = 0;
  producer_reserved_count = 0;
  consumer_reserved_sequence = 0;
  consumer_reserved_count = 0;
}

abbrev coding : LineCoding
coding = record { baud_rate = 9600; data_bits = 8; stop_bits = 1; parity = 0 }

abbrev counting : Ops ℕ
counting = record {
  load_config = λ b info. (b, true);
  is_initialized = λ b. true;
  start = λ b. (b, true);
  deinit = λ b. 0;
  poll = λ b allowed. b;
  rx_ring = λ b. some ring;
  tx_ring = λ b. some ring;
  line_coding_matches = λ b c. false;
  line_coding_acceptable = λ c. true;
  set_line_coding = λ b c. (b + 1, true);
  restart = λ b. (b, true);
  rx_snapshot_is_current = λ b n. true;
  clear_rx_error_baseline = λ b. b;
  stats = λ b. record { uart_tx_bytes = 0; uart_rx_bytes = 0; rx_error_count = 0 };
}

abbrev clock : Clock
clock = record { uptime_us = 5; time_reached = λ t. false; make_timeout_time_ms = λ ms. ms * 1000 }

abbrev info : PortInfo
info = record {
  id = 0;
  backend = pio_backend;
  tx_pin = 4;
  rx_pin = 5;
  rts_pin = 6;
  cts_pin = 7;
  line_coding = coding;
}

abbrev port : Port ℕ
port = record {
  info = info;
  ops = some counting;
  backend = 7;
  history = record { reason = no_error; uptime_us = 0 };
  mailbox = record { occupied = false; request = zero_request };
  worker = zero_pending;
  soft_pending = false;
  lifecycle = record { stop_pending = false; usb_quiesced = false; start_pending = false };
  control_generation = 0;
  status_flags = 1;
  stats_sequence = 0;
}

abbrev marked : Port ℕ
marked = usb_call 0 mark_call port

abbrev queued : Port ℕ
queued = usb_call 0 (queue_call true clock coding 1) marked

abbrev taken : Port ℕ × Worker
taken = work 0 mailbox_body clock clock queued idle

port-IsQuiet : IsQuiet port
unfolding has
port-IsQuiet = record {
  none_requested = refl;
  not_blocked = refl;
  not_stopping = refl;
  not_quiesced = refl;
}

marked-Reach : Reach 0 (marked, idle)
marked-Reach = next (quiet port-IsQuiet) (core0 mark_call)

taken-Reach : Reach 0 (taken.0, taken.1)
taken-Reach =
    next (next marked-Reach (core0 (queue_call true clock coding 1)))
      (core1 mailbox_body clock clock)

tx_blocked_iff_requested_example :
    (requested taken.0 ≡ true → port_tx_is_blocked taken.0 ≡ true)
    × (port_tx_is_blocked taken.0 ≡ true
        → (requested taken.0 || taken.0.lifecycle.stop_pending) ≡ true)
    × (taken.0.mailbox.occupied ≡ true → taken.0.mailbox.request.port_id ≡ 0)
    × IsHolding taken.0.worker taken.1
tx_blocked_iff_requested_example = tx_blocked_iff_requested 0 taken.0 taken.1 taken-Reach

marked-requested : requested marked ≡ true
unfolding usb_call mark_control_pending
marked-requested = refl

fill_while_requested_example :
    fill_port (λ b r. b + 1) (λ (s : ℕ) n. (s, 65 ∷ [])) 4 16 (marked, 0) ≡ ((marked, 0), 0)
fill_while_requested_example =
    fill_while_requested 0 marked idle marked-Reach marked-requested (λ b r. b + 1)
      (λ s n. (s, 65 ∷ [])) 4 16 0

-- A stop that the USB side has acknowledged
abbrev stopping_port : Port ℕ
stopping_port = record port {
  lifecycle = record { stop_pending = true; usb_quiesced = true; start_pending = false };
  status_flags = 8;
}

service_stop_example :
    let p = service_lifecycle clock 0 stopping_port in
    (p.backend ≡ 0)
    × ((p.mailbox.occupied || p.worker.pending) ≡ false)
    × ((p.lifecycle.stop_pending || p.lifecycle.usb_quiesced) ≡ false)
    × (has p.status_flags 1 ≡ false)
    × (has p.status_flags 2 ≡ false)
    × (has p.status_flags 8 ≡ false)
service_stop_example = service_stop clock 0 stopping_port refl refl refl

abbrev opening_port : Port ℕ
opening_port = record port {
  lifecycle = record { stop_pending = false; usb_quiesced = false; start_pending = true };
  status_flags = 2;
}

service_start_lem_example :
    let p = service_lifecycle clock 0 opening_port in
    (has p.status_flags 1 ≡ can_start 0 opening_port)
    × (has p.status_flags 2 ≡ not (can_start 0 opening_port))
service_start_lem_example = service_start_lem clock 0 opening_port refl refl

abbrev six : List (Port ℕ)
six = port ∷ port ∷ port ∷ port ∷ port ∷ port ∷ []

abbrev running : State ℕ
running = record { ports = six; worker_started = true; worker_heartbeat = 0; poll_start_index = 5 }

init_at_rest_example :
    let (ok, state') =
      init
        (λ kind. some counting)
        (info ∷ [])
        (record {
          ports = port ∷ [];
          worker_started = false;
          worker_heartbeat = 3;
          poll_start_index = 2;
        }) in
    (state'.worker_started ≡ ok)
    × (state'.poll_start_index ≡ 0)
    × AllPorts (λ p. IsQuiet p × (port_is_ready p ≡ false)) state'.ports
init_at_rest_example =
    init_at_rest (λ kind. some counting) (info ∷ [])
      (record {
        ports = port ∷ [];
        worker_started = false;
        worker_heartbeat = 3;
        poll_start_index = 2;
      })
      refl

worker_round_lem_example :
    let state' = worker_round (λ i. clock) (λ i. clock) (λ i. clock) (λ i. clock) running in
    (state'.ports
      ≡ each
          (λ i p. poll_port (
            service_deferred clock clock i (service_mailbox clock i (service_lifecycle clock i p))))
          0
          six)
    × (state'.poll_start_index ≡ 0)
    × (state'.poll_start_index < 6)
worker_round_lem_example =
    worker_round_lem (λ i. clock) (λ i. clock) (λ i. clock) (λ i. clock) running (omega arith) refl

-- A request that waits, with its ring drained
abbrev waiting : Port ℕ
waiting = record port {
  worker = record {
    pending = true;
    control_generation = 0;
    tx_boundary_sequence = 0;
    deadline = 1000;
    line_coding = record coding { baud_rate = 19200 };
  };
  status_flags = 9;
}

service_pending_outcome_example :
    let p = service_pending clock clock 0 waiting in
    (p.info ≡ (
      if due clock waiting && applied waiting
      then record info { line_coding = record coding { baud_rate = 19200 } }
      else info))
    × (p.worker.pending ≡ true
        → (false ≡ false)
          × (p.worker ≡ waiting.worker)
          × (p.history ≡ port.history)
          × (p.status_flags ≡ 9))
service_pending_outcome_example = service_pending_outcome clock clock 0 waiting

finish_flags_example :
    let p = finish_worker_control clock 0 0 false none timeout_error waiting in
    (has p.status_flags 1 ≡ has 9 1)
    × (has p.status_flags 2 ≡ has 9 2)
    × (has p.status_flags 4 ≡ true)
    × (has p.status_flags 8 ≡ (has 9 8 && (false || has_pending_port port.mailbox 0)))
finish_flags_example = finish_flags 0 0 clock false none timeout_error waiting

-- ===== src/Usb/Cdc/Tests.antt =====
-- The CDC side's theorems at an interface whose FIFOs are two lists of bytes.
use pico_uart.Usb.Cdc.Window.{retry_ends, turns, Turn}
use pico_uart.Prelude.{
  inl, ◌*◌, ◌+◌, length, refl, arith, ◌++◌, take, leb, ℕ, some, true, List, ◌∷◌, drop, [], ◌⊎◌,
  false, ◌≡◌,
}
use pico_uart.Usb.Cdc.{Link, start_pending, running, line_state_cb, line_coding_cb, nil_time}
use pico_uart.Usb.Cdc.Transfer.{World}
use pico_uart.Usb.Cdc.Session.{poll_link}
use pico_uart.Usb.Cdc.Poll.{Cdc, change_session, cdc_port_stats, poll_interfaces}
use pico_uart.Usb.Cdc.Answers.{IsArmed, IsRejected, line_coding_cb_lem}
use pico_uart.Usb.Cdc.Gate.{IsStill, IsBridged, poll_link_lem}
use pico_uart.Usb.Cdc.Reset.{IsReset, change_session_lem}
use pico_uart.Usb.Cdc.Events.{CdcEvent, cdc_step, dtr_event, poll_event}
use pico_uart.Usb.Cdc.Closing.{
  StopEvent, core0_event, mailbox_event, deferred_event, poll_port_event, lifecycle_event,
  until_stopped, closing_lem,
}
use pico_uart.Usb.Cdc.Fair.{ServedOnce, poll_interfaces_lem}
use pico_uart.Usb.Hid.{Hid, idle, HidError}
use pico_uart.Usb.Hid.Poll.{sessions_closed}
use pico_uart.Control.{zero_request, completion_is_current}
use pico_uart.Driver.{acceptable}
use pico_uart.Driver.Lifecycle.{zero_pending}
use pico_uart.LineCoding.{LineCoding, from_usb}
use pico_uart.Platform.ServiceLoad.{Core}
use pico_uart.Runtime.{Port, Ops, Clock, no_error, pio_backend}
use pico_uart.Ring.{Ring}

abbrev ring : Ring
ring = record {
  storage = 0 ∷ 0 ∷ 0 ∷ 0 ∷ [];
  size = 4;
  mask = 3;
  producer = 0;
  consumer = 0;
  high_watermark = 0;
  overflow_count = 0;
  producer_reserved_sequence = 0;
  producer_reserved_count = 0;
  consumer_reserved_sequence = 0;
  consumer_reserved_count = 0;
}

abbrev coding : LineCoding
coding = record { baud_rate = 9600; data_bits = 8; stop_bits = 1; parity = 0 }

-- A backend whose state is its transmit ring.
abbrev ring_ops : Ops Ring
ring_ops = record {
  load_config = λ b info. (b, true);
  is_initialized = λ b. true;
  start = λ b. (b, true);
  deinit = λ b. b;
  poll = λ b allowed. b;
  rx_ring = λ b. some ring;
  tx_ring = λ b. some b;
  line_coding_matches = λ b c. false;
  line_coding_acceptable = λ c. true;
  set_line_coding = λ b c. (b, true);
  restart = λ b. (b, true);
  rx_snapshot_is_current = λ b n. true;
  clear_rx_error_baseline = λ b. b;
  stats = λ b. record { uart_tx_bytes = 0; uart_rx_bytes = 0; rx_error_count = 0 };
}

abbrev port : Port Ring
port = record {
  info = record {
    id = 0;
    backend = pio_backend;
    tx_pin = 4;
    rx_pin = 5;
    rts_pin = 6;
    cts_pin = 7;
    line_coding = coding;
  };
  ops = some ring_ops;
  backend = ring;
  history = record { reason = no_error; uptime_us = 0 };
  mailbox = record { occupied = false; request = zero_request };
  worker = zero_pending;
  soft_pending = false;
  lifecycle = record { stop_pending = false; usb_quiesced = false; start_pending = false };
  control_generation = 0;
  status_flags = 1;
  stats_sequence = 0;
}

abbrev core : Core
core = record {
  window_start = 0;
  pass_start = 0;
  busy_us = 0;
  started = false;
  measuring = false;
  worked = false;
  published = 0;
}

abbrev Fifos : Type 0
Fifos = List ℕ × List ℕ

abbrev open_link : Link Ring Fifos
open_link = record {
  cdc = record {
    line_coding = record {
      pending = false;
      control_generation = 0;
      deadline = nil_time;
      line_coding = coding;
    };
    stats = record {
      opened = true;
      tx_bytes = 0;
      rx_bytes = 0;
      rx_fifo_high_watermark = 0;
      tx_fifo_high_watermark = 0;
    };
    tx_flush_deadline = nil_time;
    admission = running;
    reset_rx_flushed = false;
    tx_flush_pending = false;
  };
  port = port;
  usb = (65 ∷ 66 ∷ [], []);
  load = core;
}

abbrev clock_at : ℕ → Clock
clock_at now = record {
  uptime_us = now;
  time_reached = λ t. leb t now;
  make_timeout_time_ms = λ ms. now + ms * 1000;
}

abbrev world : World Ring Fifos
world = record {
  tud = record {
    read = λ u n. ((drop n u.0, u.1), take n u.0);
    available = λ u. length u.0;
    read_flush = λ u. ([], u.1);
    write = λ u bytes. ((u.0, u.1 ++ bytes), length bytes);
    write_available = λ u. 2048;
    write_flush = λ u. (u.0, []);
    write_clear = λ u. ((u.0, []), true);
  };
  put_tx_ring = λ b r. r;
  put_rx_ring = λ b r. b;
  during_copy = λ s r. (s, r);
  rounds = 8;
  worker_started = true;
  clock = clock_at 7;
  make_timeout_time_us = λ us. 7 + us;
}

poll_link_lem_example :
    let polled = poll_link world 0 open_link in
    IsStill world open_link polled
    ⊎ ((true ≡ true) × (false ≡ false) × IsBridged world open_link polled)
poll_link_lem_example = poll_link_lem world 0 open_link

-- The stop waits for the poll, and the worker's lifecycle body after it is the one that carries it out.
abbrev stop_events : List (StopEvent Ring Fifos)
stop_events =
    lifecycle_event (clock_at 8)
    ∷ core0_event (dtr_event true true)
    ∷ poll_port_event
    ∷ core0_event (poll_event world)
    ∷ mailbox_event (clock_at 9)
    ∷ deferred_event (clock_at 9) (clock_at 10)
    ∷ lifecycle_event (clock_at 11)
    ∷ []

closing_lem_example :
    let closed = line_state_cb true 0 false open_link in
    let later = until_stopped 0 stop_events closed in
    (later.port.lifecycle.stop_pending ≡ true)
    × (later.cdc.stats.rx_bytes ≡ 0)
    × (later.cdc.stats.tx_bytes ≡ 0)
    × (closed.port.backend ≡ ring)
    × ((call : CdcEvent Ring Fifos) → (cdc_step 0 call later).port.backend ≡ later.port.backend)
closing_lem_example = closing_lem 0 stop_events open_link refl refl

-- A request that no poll can stage, since the worker does not run, before the session's start
abbrev waiting_link : Link Ring Fifos
waiting_link = record open_link {
  cdc = record open_link.cdc {
    admission = start_pending;
    line_coding = record open_link.cdc.line_coding { pending = true };
  };
}

-- A turn at a time, with a worker that leaves the port alone
abbrev turn_at : ℕ → Turn Ring Fifos
turn_at now = (record world { worker_started = false; clock = clock_at now }, λ p. p)

-- A turn before which a stop waits, so that its poll does not serve the settings
abbrev stopped_turn : ℕ → Turn Ring Fifos
stopped_turn now =
    ((turn_at now).0, λ p. record p { lifecycle = record p.lifecycle { stop_pending = true } })

abbrev restarted_turn : ℕ → Turn Ring Fifos
restarted_turn now = ((turn_at now).0, λ p. port)

retry_ends_example :
    let later =
      turns 0 (turn_at 90 ∷ stopped_turn 2000000 ∷ []) (poll_link (turn_at 7).0 0 waiting_link) in
    (poll_link (turn_at 2000000).0 0 (record later { port = port })).cdc.line_coding.pending ≡ false
unfolding turns poll_link pico_uart.Usb.Cdc.Session.quiesce
    pico_uart.Driver.channel_stop_is_quiesced pico_uart.Usb.Cdc.Session.serve_open
    pico_uart.Usb.Cdc.Session.admit_start pico_uart.Usb.Cdc.apply_pending_line_coding
    pico_uart.Usb.Cdc.time_nil acceptable pico_uart.LineCoding.is_valid
    pico_uart.Plane.Service.line_coding_acceptable pico_uart.Driver.queue_line_coding
retry_ends_example =
    retry_ends 0 (turn_at 7).0 (turn_at 90 ∷ stopped_turn 2000000 ∷ []) (restarted_turn 2000000)
      waiting_link refl (refl, refl, inl refl) (λ e. absurd (omega (arith, e))) refl
      (refl, refl, inl refl)

line_coding_cb_lem_example :
    let later = line_coding_cb (clock_at 7) 9600 0 0 8 open_link in
    let asked = from_usb 9600 0 0 8 in
    (((c : LineCoding) × (asked ≡ some c) × (acceptable port c ≡ true) × IsArmed c later)
      ⊎ (((c : LineCoding) → asked ≡ some c → acceptable port c ≡ false)
          × IsRejected open_link later))
    × (completion_is_current 0 later.port.control_generation ≡ false)
line_coding_cb_lem_example = line_coding_cb_lem (clock_at 7) 9600 0 0 8 open_link (omega arith)

abbrev all_open : Cdc Ring Fifos
all_open = record { links = λ itf. open_link; start_itf = 4; session_active = true; load = core }

abbrev hid : Hid
hid = record {
  channels = [];
  identity = [];
  configuration = [];
  command_status = idle;
  command = 0;
  requested_profile = 0;
  error_reason = HidError.no_error;
  reboot_deadline = 0;
  reboot_pending = false;
  next_channel = 0;
  next_fault_sample_ms = 0;
}

change_session_lem_example :
    let (c', hid') = change_session true false 9 (all_open, hid) in
    (sessions_closed (cdc_port_stats c') ≡ true)
    × ((itf : ℕ) → IsReset true open_link (c'.links itf))
    × (c'.session_active ≡ false)
    × (hid'.command_status ≡ idle)
change_session_lem_example = change_session_lem true false 9 all_open hid

poll_interfaces_lem_example :
    let later = poll_interfaces (λ itf. world) all_open in
    ServedOnce (λ itf. world) 1 open_link (later.links 1) × (later.start_itf ≡ 5)
poll_interfaces_lem_example =
    poll_interfaces_lem (λ itf. world) all_open 1 (omega arith) (omega arith)

-- ===== src/Control/Tests.antt =====
-- Two cores share the mailbox.
use pico_uart.Control.Mailbox.{take_call, mailbox_run, publish_call, queued, Call, run}
use pico_uart.Prelude.{◌∷◌, ◌++◌, [], false, List, true, ℕ, ◌≡◌}
use pico_uart.Control.{Slot, Request, reset}

abbrev request : ℕ → Request
request port = record {
  port_id = port;
  control_generation = 7;
  tx_boundary_sequence = 100;
  line_coding = record { baud_rate = 9600; data_bits = 8; stop_bits = 1; parity = 0 };
}

abbrev two : ℕ
two = 2

abbrev seven : ℕ
seven = 7

abbrev full : Slot
full = record { occupied = true; request = request 1 }

abbrev free : Slot
free = record { occupied = false; request = request 1 }

abbrev calls : List Call
calls =
    publish_call (request 1) ∷ publish_call (request 2) ∷ take_call ∷ publish_call (request 3) ∷ []

mailbox_run_example :
    let (mailbox', traffic) = run calls (reset full, record { accepted = []; taken = [] }) in
    traffic.accepted ≡ queued mailbox' ++ traffic.taken
mailbox_run_example = mailbox_run calls full

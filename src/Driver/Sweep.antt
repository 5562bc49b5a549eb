-- ===== src/Driver/Sweep.antt =====
-- The worker's rounds over all ports: `uart_driver_poll_io` and the loop of
-- `uart_driver_service_channel_lifecycle` in firmware/src/uart/uart_driver.c, and
-- `uart_control_plane_service` in firmware/src/uart/control/plane.c. The clock is read anew for each
-- port, so the rounds take its readings by port; the timing profile is left out.
use pico_uart.Plane.Service.{tx_launch_allowed, service_deferred, service_mailbox}
use pico_uart.Runtime.{Clock, Port, port_count}
use pico_uart.Prelude.{
  ◌∙◌, ap, not, refl, ◌||◌, if◌then◌else◌, arith, zero, [], ◌%◌, ◌≡◌, ◌∷◌, suc, some, List, ◌+◌,
  none, ◌<◌, ℕ, length,
}
use pico_uart.Driver.Start.{State}
use pico_uart.Driver.{channel_stop_is_quiesced}
use pico_uart.Driver.Lifecycle.{service_lifecycle, begin_stats_update, end_stats_update}

module _ {B : Type 0} where
  -- The port of an index, served in its place.
  unfoldable pub serve_at : (Port B → Port B) → ℕ → List (Port B) → List (Port B)
  serve_at f n [] = []
  serve_at f zero (port ∷ ports) = f port ∷ ports
  serve_at f (suc n) (port ∷ ports) = port ∷ serve_at f n ports

  -- The loop `for (offset = 0; offset < UART_PORT_COUNT; ++offset)` at `(start + offset) %
  -- UART_PORT_COUNT`, with `rounds` of it left.
  unfoldable pub sweep : (ℕ → Port B → Port B) → ℕ → ℕ → ℕ → List (Port B) → List (Port B)
  sweep f start offset zero ports = ports
  sweep f start offset (suc rounds) ports =
      let index = (start + offset) % port_count in
      sweep f start (offset + 1) rounds (serve_at (f index) index ports)

  -- All ports, each served once.
  unfoldable pub each : (ℕ → Port B → Port B) → ℕ → List (Port B) → List (Port B)
  each f n [] = []
  each f n (port ∷ ports) = f n port ∷ each f (n + 1) ports

  -- A port's round of `uart_driver_poll_io`.
  unfoldable pub poll_port : Port B → Port B
  poll_port port = elim port.ops [
    | none ↦ port
    | some ops ↦
        let began = begin_stats_update port in
        if channel_stop_is_quiesced port || not (ops.is_initialized port.backend)
        then port
        else end_stats_update
            (record began { backend = ops.poll port.backend (tx_launch_allowed port) })
  ]

  unfoldable pub poll_io : State B → State B
  poll_io state = record state {
    ports = sweep (λ index. poll_port) state.poll_start_index 0 port_count state.ports;
    poll_start_index = (state.poll_start_index + 1) % port_count;
  }

  -- `uart_control_plane_service`
  unfoldable pub plane_service : (ℕ → Clock) → (ℕ → Clock) → (ℕ → Clock) → State B → State B
  plane_service taking serving later state =
      let start = state.poll_start_index in
      let taken =
        sweep (λ index. service_mailbox (taking index) index) start 0 port_count state.ports in
      record state {
        ports =
            sweep (λ index. service_deferred (serving index) (later index) index) start 0 port_count
              taken;
      }

  -- The loop of `uart_driver_service_channel_lifecycle`, in the order of the ports
  unfoldable pub service_channels : (ℕ → Clock) → State B → State B
  service_channels clock state = record state {
    ports = each (λ index. service_lifecycle (clock index) index) 0 state.ports;
  }

  -- `uart_driver_worker_service_control`, and then `uart_driver_poll_io`: one step of the worker.
  unfoldable pub worker_round :
      (ℕ → Clock) → (ℕ → Clock) → (ℕ → Clock) → (ℕ → Clock) → State B → State B
  worker_round starting taking serving later state =
      poll_io (plane_service taking serving later (service_channels starting state))

  six_ports :
      (f : ℕ → Port B → Port B) (start : ℕ) (p0 p1 p2 p3 p4 p5 : Port B)
      → start < 6
      → sweep f start 0 6 (p0 ∷ p1 ∷ p2 ∷ p3 ∷ p4 ∷ p5 ∷ [])
        ≡ each f 0 (p0 ∷ p1 ∷ p2 ∷ p3 ∷ p4 ∷ p5 ∷ [])
  unfolding sweep each serve_at
  six_ports f zero p0 p1 p2 p3 p4 p5 h = refl
  six_ports f (suc zero) p0 p1 p2 p3 p4 p5 h = refl
  six_ports f (suc (suc zero)) p0 p1 p2 p3 p4 p5 h = refl
  six_ports f (suc (suc (suc zero))) p0 p1 p2 p3 p4 p5 h = refl
  six_ports f (suc (suc (suc (suc zero)))) p0 p1 p2 p3 p4 p5 h = refl
  six_ports f (suc (suc (suc (suc (suc zero))))) p0 p1 p2 p3 p4 p5 h = refl
  six_ports f (suc (suc (suc (suc (suc (suc n)))))) p0 p1 p2 p3 p4 p5 h = absurd (omega arith)

  pub sweep_lem :
      (f : ℕ → Port B → Port B) (start : ℕ) (ports : List (Port B))
      → start < port_count
      → length ports ≡ port_count
      → sweep f start 0 port_count ports ≡ each f 0 ports
  sweep_lem f start (p0 ∷ p1 ∷ p2 ∷ p3 ∷ p4 ∷ p5 ∷ []) h e = six_ports f start p0 p1 p2 p3 p4 p5 h
  sweep_lem f start [] h e = absurd (omega arith)
  sweep_lem f start (p0 ∷ []) h e = absurd (omega arith)
  sweep_lem f start (p0 ∷ p1 ∷ []) h e = absurd (omega arith)
  sweep_lem f start (p0 ∷ p1 ∷ p2 ∷ []) h e = absurd (omega arith)
  sweep_lem f start (p0 ∷ p1 ∷ p2 ∷ p3 ∷ []) h e = absurd (omega arith)
  sweep_lem f start (p0 ∷ p1 ∷ p2 ∷ p3 ∷ p4 ∷ []) h e = absurd (omega arith)
  sweep_lem f start (p0 ∷ p1 ∷ p2 ∷ p3 ∷ p4 ∷ p5 ∷ p6 ∷ ports) h e = absurd (omega arith)

  length-each :
      (f : ℕ → Port B → Port B) (n : ℕ) (ports : List (Port B))
      → length (each f n ports) ≡ length ports
  unfolding each
  length-each f n [] = refl
  length-each f n (port ∷ ports) = ap suc (length-each f (n + 1) ports)

  each-each :
      (f g : ℕ → Port B → Port B) (n : ℕ) (ports : List (Port B))
      → each f n (each g n ports) ≡ each (λ i port. f i (g i port)) n ports
  unfolding each
  each-each f g n [] = refl
  each-each f g n (port ∷ ports) = ap (λ rest. f n (g n port) ∷ rest) (each-each f g (n + 1) ports)

  sweep-each :
      (f g : ℕ → Port B → Port B) (start : ℕ) (ports : List (Port B))
      → start < port_count
      → length ports ≡ port_count
      → sweep f start 0 port_count (each g 0 ports) ≡ each (λ i port. f i (g i port)) 0 ports
  sweep-each f g start ports h e =
      sweep_lem f start (each g 0 ports) h (length-each g 0 ports ∙ e) ∙ each-each f g 0 ports

-- One step of the worker, from a start index in range: whatever the index, each of the six ports goes
-- once through its start or stop, its mailbox, its deferred request and its poll, in this order and
-- with its own index, and none depends on another; the next step begins one port later, in range.
pub worker_round_lem :
    {B : Type 0} (starting taking serving later : ℕ → Clock) (state : State B)
    → state.poll_start_index < port_count
    → length state.ports ≡ port_count
    → let state' = worker_round starting taking serving later state in
      (state'.ports
        ≡ each
            (λ i port. poll_port (
              service_deferred
                (serving i)
                (later i)
                i
                (service_mailbox (taking i) i (service_lifecycle (starting i) i port))))
            0
            state.ports)
      × (state'.poll_start_index ≡ (state.poll_start_index + 1) % port_count)
      × (state'.poll_start_index < port_count)
unfolding worker_round poll_io plane_service service_channels
worker_round_lem {B} starting taking serving later state h e =
    let start = state.poll_start_index in
    let started : ℕ → Port B → Port B = λ i. service_lifecycle (starting i) i in
    let taken : ℕ → Port B → Port B = λ i. service_mailbox (taking i) i in
    let deferred : ℕ → Port B → Port B = λ i. service_deferred (serving i) (later i) i in
    let two = sweep-each taken started start state.ports h e in
    let three = sweep-each deferred (λ i port. taken i (started i port)) start state.ports h e in
    let four =
      sweep-each (λ i. poll_port) (λ i port. deferred i (taken i (started i port))) start
        state.ports h e in
    (
      ap (sweep (λ i. poll_port) start 0 port_count)
            (ap (sweep deferred start 0 port_count) two ∙ three)
          ∙ four,
      refl,
      omega arith,
    )

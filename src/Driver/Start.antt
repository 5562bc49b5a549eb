-- ===== src/Driver/Start.antt =====
-- Starting the driver: `uart_driver_init` and its parts, of firmware/src/uart/uart_driver.c. The operations of a kind of backend are a
-- parameter, and so is the board's list of ports, which has as many as the driver; the spin lock and the launch of core 1 are left out.
pub mod Rest
use mathlib.Core.List.{map}
use pico_uart.Plane.Service.{tx_launch_allowed}
use pico_uart.Control.Flags.{status_control_error, status_init_failed, status_ready}
use pico_uart.Control.{reset}
use pico_uart.Prelude.{
  zero, ◌||◌, not, ◌&&◌, [], ◌%◌, ◌∷◌, some, true, suc, if◌then◌else◌, Bool, false, ℕ, ◌+◌, none,
  Option, List,
}
use pico_uart.Runtime.{Ops, PortInfo, BackendKind, port_count, Port}
use pico_uart.Driver.{
  set_status_flag, clear_status_flag, channel_stop_is_quiesced, backend_is_initialized,
}
use pico_uart.Driver.Lifecycle.{zero_pending, begin_stats_update, end_stats_update}

-- `uart_driver_state_t`, the arrays by port in `ports`
pub record State (B : Type 0) : Type 0 where
  pub ports : List (Port B)
  pub worker_started : Bool
  pub worker_heartbeat : ℕ
  pub poll_start_index : ℕ

module _ {B : Type 0} where
  -- A port's round of `uart_driver_load_board_config`.
  unfoldable pub load_port : (BackendKind → Option (Ops B)) → PortInfo → Port B → Port B
  load_port ops_for_type board_port port = elim (ops_for_type board_port.backend) [
    | none ↦ record port { info = board_port; ops = none }
    | some ops ↦
        let (backend, ok) = ops.load_config port.backend board_port in
        record port { info = board_port; ops = if ok then some ops else none; backend = backend }
  ]

  -- A port's round of the loops of `uart_driver_init` that reset its state and its mailbox.
  unfoldable pub reset_port : PortInfo → Port B → Port B
  reset_port board_port port = record port {
    status_flags = 0;
    soft_pending = false;
    lifecycle = record { stop_pending = false; usb_quiesced = false; start_pending = false };
    control_generation = 0;
    stats_sequence = 0;
    worker = record zero_pending { line_coding = board_port.line_coding };
    mailbox = reset port.mailbox;
  }

  unfoldable pub load_ports :
      (BackendKind → Option (Ops B)) → List PortInfo → List (Port B) → List (Port B)
  load_ports ops_for_type [] ports = []
  load_ports ops_for_type (b ∷ board) [] = []
  load_ports ops_for_type (b ∷ board) (port ∷ ports) =
      reset_port b (load_port ops_for_type b port) ∷ load_ports ops_for_type board ports

  unfoldable pub start_init : Port B → Bool × Port B
  start_init port = elim port.ops [
    | none ↦ (false, port)
    | some ops ↦
        let (backend, ok) = ops.start port.backend in (ok, record port { backend = backend })
  ]

  unfoldable pub init_backend : Port B → Bool × Port B
  init_backend port =
      let (ok, p) = start_init port in
      if not ok
      then (false, set_status_flag status_init_failed (clear_status_flag status_ready p))
      else (
        true,
        set_status_flag status_ready
            (clear_status_flag (status_init_failed + status_control_error) p),
      )

  unfoldable pub init_backends : List (Port B) → Bool × List (Port B)
  init_backends [] = (true, [])
  init_backends (port ∷ ports) =
      let (ok, p) = init_backend port in
      let (rest_ok, rest) = init_backends ports in (ok && rest_ok, p ∷ rest)

  unfoldable pub rollback_port : Port B → Port B
  rollback_port port = elim port.ops [
    | none ↦ record port { status_flags = 0 }
    | some ops ↦ record port {
      backend = if ops.is_initialized port.backend then ops.deinit port.backend else port.backend;
      status_flags = 0;
    }
  ]

  -- A port's round of the last loop: initialised ports are closed until the USB side opens them.
  unfoldable pub close_port : Port B → Port B
  close_port port = elim port.ops [
    | none ↦ port
    | some ops ↦
        clear_status_flag status_ready
          (record port { backend = ops.deinit (ops.clear_rx_error_baseline port.backend) })
  ]

  unfoldable pub init : (BackendKind → Option (Ops B)) → List PortInfo → State B → Bool × State B
  init ops_for_type board state =
      let (ok, ports) = init_backends (load_ports ops_for_type board state.ports) in
      if state.worker_started
      then (true, state)
      else if not ok
      then (
        false,
        record state {
          ports = map rollback_port ports;
          poll_start_index = 0;
          worker_heartbeat = 0;
        },
      )
      else (
        true,
        record {
          ports = map close_port ports;
          worker_started = true;
          poll_start_index = 0;
          worker_heartbeat = 0;
        },
      )

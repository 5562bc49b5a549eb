-- ===== src/Runtime.antt =====
-- One logical UART port as the two cores share it: firmware/src/uart/runtime.h, the types of
-- firmware/src/uart/uart_driver.h and firmware/src/uart/control/plane.h, and the operations of a
-- backend, firmware/src/uart/backend/backend.h. The code keeps the parts in arrays indexed by port;
-- here a port has its own of each. The backends' state is a parameter, and so is the clock of the
-- SDK: its readings, and the test whether an absolute time has come.
use pico_uart.Prelude.{Bool, Option, ℕ}
use pico_uart.LineCoding.{LineCoding}
use pico_uart.Ring.{Ring}
use pico_uart.Control.{Slot}

-- `UART_PORT_COUNT`
abbrev pub port_count : ℕ
port_count = 6

-- `uart_driver_backend_t`
pub data BackendKind : Type 0 where
  hw_backend pio_backend : BackendKind

-- `uart_driver_control_error_t`
pub data ControlError : Type 0 where
  no_error baud_error framing_error backend_error timeout_error other_error : ControlError

-- `uart_driver_control_history_t`
pub record History : Type 0 where
  pub reason : ControlError
  pub uptime_us : ℕ

-- `uart_driver_port_info_t`; a pin that is not assigned has the number of the code.
pub record PortInfo : Type 0 where
  pub id : ℕ
  pub backend : BackendKind
  pub tx_pin : ℕ
  pub rx_pin : ℕ
  pub rts_pin : ℕ
  pub cts_pin : ℕ
  pub line_coding : LineCoding

-- `uart_backend_stats_t`
pub record BackendStats : Type 0 where
  pub uart_tx_bytes : ℕ
  pub uart_rx_bytes : ℕ
  pub rx_error_count : ℕ

-- `uart_backend_ops_t`, on the state of a backend
pub record Ops (B : Type 0) : Type 0 where
  pub load_config : B → PortInfo → B × Bool
  pub is_initialized : B → Bool
  pub start : B → B × Bool
  pub deinit : B → B
  pub poll : B → Bool → B
  pub rx_ring : B → Option Ring
  pub tx_ring : B → Option Ring
  pub line_coding_matches : B → LineCoding → Bool
  pub line_coding_acceptable : LineCoding → Bool
  pub set_line_coding : B → LineCoding → B × Bool
  pub restart : B → B × Bool
  pub rx_snapshot_is_current : B → ℕ → Bool
  pub clear_rx_error_baseline : B → B
  pub stats : B → BackendStats

-- `uart_control_pending_t`
pub record Pending : Type 0 where
  pub pending : Bool
  pub control_generation : ℕ
  pub tx_boundary_sequence : ℕ
  pub deadline : ℕ
  pub line_coding : LineCoding

-- `uart_driver_lifecycle_t`
pub record Lifecycle : Type 0 where
  pub stop_pending : Bool
  pub usb_quiesced : Bool
  pub start_pending : Bool

-- `uart_runtime_port_t` and the port's entries in the arrays of `uart_driver_state_t`
pub record Port (B : Type 0) : Type 0 where
  pub info : PortInfo
  pub ops : Option (Ops B)
  pub backend : B
  pub history : History
  pub mailbox : Slot
  pub worker : Pending
  pub soft_pending : Bool
  pub lifecycle : Lifecycle
  pub control_generation : ℕ
  pub status_flags : ℕ
  pub stats_sequence : ℕ

-- The SDK's clock at one moment.
pub record Clock : Type 0 where
  pub uptime_us : ℕ
  pub time_reached : ℕ → Bool
  pub make_timeout_time_ms : ℕ → ℕ

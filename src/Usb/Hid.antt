-- ===== src/Usb/Hid.antt =====
-- The HID reports: firmware/src/usb/usb_hid.c. This file has the state; an array of the code that has
-- two or four counters is the list of them. The readings of the driver, of the CDC side and of the
-- clock that a function makes are its arguments.
pub mod Capture
pub mod Command
pub mod Reports
pub mod Poll
pub mod Transfer
mod Tests
use pico_uart.Runtime.{History}
use pico_uart.Prelude.{false, true, List, Bool, ℕ}
use pico_uart.Usb.{PortStats, CdcStats}

-- `usb_hid_command_status_t`
pub data CommandStatus : Type 0 where
  idle pending completed invalid unsupported busy failed : CommandStatus

-- `usb_hid_error_t`
pub data HidError : Type 0 where
  no_error malformed profile_error acknowledgement authorization unsupported_error : HidError
  cdc_open flash_error verify_error execution : HidError

-- `usb_hid_measurement_t`
pub data Measurement : Type 0 where
  unavailable current cached : Measurement

-- The values of the enumerations.
abbrev pub status_code : CommandStatus → ℕ
status_code idle = 0
status_code pending = 1
status_code completed = 2
status_code invalid = 3
status_code unsupported = 4
status_code busy = 5
status_code failed = 6

abbrev pub error_code : HidError → ℕ
error_code no_error = 0
error_code malformed = 1
error_code profile_error = 2
error_code acknowledgement = 3
error_code authorization = 4
error_code unsupported_error = 5
error_code cdc_open = 6
error_code flash_error = 7
error_code verify_error = 8
error_code execution = 9

abbrev pub measurement_code : Measurement → ℕ
measurement_code unavailable = 0
measurement_code current = 1
measurement_code cached = 2

-- `usb_hid_command_status == USB_HID_STATUS_PENDING`
abbrev pub is_pending : CommandStatus → Bool
is_pending pending = true
is_pending _ = false

abbrev pub is_unavailable : Measurement → Bool
is_unavailable unavailable = true
is_unavailable _ = false

-- `usb_hid_channel_t`
pub record Channel : Type 0 where
  pub uart : PortStats
  pub cdc : CdcStats
  pub uart_sample_us : ℕ
  pub measurement : Measurement
  pub previous : List ℕ
  pub total : List ℕ
  pub rx_previous : List ℕ
  pub rx_count : List ℕ
  pub peaks : List ℕ
  pub control : History
  pub last_fault_s : ℕ
  pub last_publication_ms : ℕ
  pub sequence : ℕ

-- The static variables of the file.
pub record Hid : Type 0 where
  pub channels : List Channel
  pub identity : List ℕ
  pub configuration : List ℕ
  pub command_status : CommandStatus
  pub command : ℕ
  pub requested_profile : ℕ
  pub error_reason : HidError
  pub reboot_deadline : ℕ
  pub reboot_pending : Bool
  pub next_channel : ℕ
  pub next_fault_sample_ms : ℕ

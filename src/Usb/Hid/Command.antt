-- ===== src/Usb/Hid/Command.antt =====
-- Report 20, the board's commands: `usb_hid_handle_command` and `usb_hid_execute_pending_save` of
-- firmware/src/usb/usb_hid.c. A handler also gives the state that it sets the LED to, if it does; the
-- reset of the board is a result of its poll.
pub mod Accepts
pub mod Saves
use pico_uart.Prelude.{
  ◌!=◌, none, bit_and, ◌==◌, leb, ◌&&◌, some, not, ◌||◌, false, true, [], get_or, if◌then◌else◌,
  Option, List, ℕ, Bool,
}
use pico_uart.Usb.Hid.{
  CommandStatus, HidError, Hid, pending, completed, invalid, unsupported, busy, failed,
}
use pico_uart.Usb.Hid.{
  no_error, malformed, profile_error, acknowledgement, authorization, unsupported_error, cdc_open,
  flash_error, verify_error, execution, is_pending,
}
use pico_uart.Platform.BootConfig.{
  profile_supported, SaveResult, save_ok, flash_failed, verify_failed,
}
use pico_uart.Platform.BootConfig.Store.{State, set_config, save_with_result}

-- `USB_HID_REPORT_VERSION`
abbrev pub report_version : ℕ
report_version = 1

-- `USB_HID_CONTROL_SIZE`
abbrev pub control_size : ℕ
control_size = 4

-- `USB_HID_REBOOT_DELAY_MS`
abbrev pub reboot_delay_ms : ℕ
reboot_delay_ms = 1000

unfoldable pub set_result : ℕ → CommandStatus → HidError → Hid → Hid
set_result action status error hid = record hid {
  command = action;
  command_status = status;
  error_reason = error;
}

-- `framed`; the null request is `none`.
unfoldable pub is_framed : Option (List ℕ) → ℕ → Bool
is_framed none size = false
is_framed (some request) size = size == control_size && get_or request 0 0 == report_version

unfoldable pub action_of : Bool → ℕ → ℕ
action_of framed code = if framed && leb 1 code && leb code 4 then code else 0

unfoldable pub capability_of : ℕ → ℕ
capability_of action = if leb action 2 then 1 else if action == 3 then 2 else 4

-- The checks of a request, in their order, and what they answer.
unfoldable pub verdict : ℕ → Bool → Bool → ℕ → ℕ → ℕ → CommandStatus × HidError
verdict capabilities sessions_closed framed action flags profile =
    if not framed || bit_and flags 0xfc != 0
    then (invalid, malformed)
    else if action == 0 || bit_and capabilities (capability_of action) == 0
    then (unsupported, unsupported_error)
    else if (leb action 2 && (flags != 0 || profile != 0))
        || (action == 3 && (profile != 0 || bit_and flags 2 != 0))
        || (action == 4 && profile == 0 && bit_and flags 2 != 0)
    then (invalid, malformed)
    else if action == 4 && not (profile_supported profile)
    then (invalid, profile_error)
    else if leb 3 action && bit_and flags 1 == 0
    then (invalid, authorization)
    else if action == 4 && profile != 0 && bit_and flags 2 == 0
    then (invalid, acknowledgement)
    else if action == 4 && not sessions_closed
    then (busy, cdc_open)
    else (completed, no_error)

abbrev pub is_completed : CommandStatus → Bool
is_completed completed = true
is_completed _ = false

-- What an accepted request does: the LED, the reboot, or the deferred save.
unfoldable pub run_action : (ℕ → ℕ) → ℕ → ℕ → Hid → Hid × Option Bool
run_action make_timeout_time_ms action profile hid =
    if leb action 2
    then (hid, some (action == 2))
    else if action == 3
    then (
      record hid { reboot_pending = true; reboot_deadline = make_timeout_time_ms reboot_delay_ms },
      none,
    )
    else (record hid { requested_profile = profile; command_status = pending }, none)

-- The null request has no bytes to read.
abbrev pub bytes_of : Option (List ℕ) → List ℕ
bytes_of none = []
bytes_of (some request) = request

unfoldable pub handle_command :
    (ℕ → ℕ) → Bool → Option (List ℕ) → ℕ → Hid → Bool × Hid × Option Bool
handle_command make_timeout_time_ms sessions_closed request size hid =
    let framed = is_framed request size in
    let action = action_of framed (get_or (bytes_of request) 1 0) in
    let profile = get_or (bytes_of request) 3 0 in
    let (status, error) =
      verdict (get_or hid.identity 17 0) sessions_closed framed action
        (get_or (bytes_of request) 2 0) profile in
    let answered = set_result action status error hid in
    let (done, led) = run_action make_timeout_time_ms action profile answered in
    if is_pending hid.command_status || hid.reboot_pending
    then (false, hid, none)
    else if is_completed status
    then (true, done, led)
    else (true, answered, none)

-- The end of a save: its result, and on success the reboot.
unfoldable pub finish_save : (ℕ → ℕ) → SaveResult → Hid → Hid
finish_save make_timeout_time_ms save_ok hid = record (set_result 4 completed no_error hid) {
  reboot_pending = true;
  reboot_deadline = make_timeout_time_ms reboot_delay_ms;
}
finish_save make_timeout_time_ms flash_failed hid = set_result 4 failed flash_error hid
finish_save make_timeout_time_ms verify_failed hid = set_result 4 failed verify_error hid

module _ (flash_range_erase : List ℕ → List ℕ) (flash_range_program : List ℕ → List ℕ → List ℕ)
    (flash_safe_execute : (List ℕ → List ℕ) → List ℕ → Bool × List ℕ) where
  unfoldable pub execute_pending_save : (ℕ → ℕ) → Bool → Bool → Hid → State → Hid × State
  execute_pending_save make_timeout_time_ms rp2350 sessions_closed hid boot =
      let (set_ok, boot1) = set_config hid.requested_profile boot in
      let (result, boot2) =
        save_with_result flash_range_erase flash_range_program flash_safe_execute rp2350 boot1 in
      if not sessions_closed
      then (set_result 4 busy cdc_open hid, boot)
      else if not set_ok
      then (set_result 4 failed execution hid, boot1)
      else (finish_save make_timeout_time_ms result hid, boot2)

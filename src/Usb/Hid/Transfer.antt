-- ===== src/Usb/Hid/Transfer.antt =====
-- The host's transfers of reports: `tud_hid_get_report_cb`, `tud_hid_set_report_cb` and
-- `__wrap_hidd_control_xfer_cb` of firmware/src/usb/usb_hid.c, the last by the stages of a transfer.
pub mod Bounds
pub mod Protect
use pico_uart.Usb.Hid.Poll.{channel_at, capture_at, Env}
use pico_uart.Runtime.{port_count, PortInfo, History}
use pico_uart.Prelude.{
  ◌-◌, ◌+◌, drop, leb, [], length, none, ltb, ◌/◌, ◌==◌, ◌&&◌, ◌++◌, some, ◌!=◌, ◌||◌, not,
  if◌then◌else◌, get_or, true, Option, set, take, ◌∷◌, ℕ, Bool, false, replicate, List,
}
use pico_uart.Usb.{PortStats, CdcStats, hid_endpoint_buffer_size}
use pico_uart.Usb.Hid.{
  malformed, invalid, error_code, is_pending, status_code, no_error, Channel, Hid, unavailable,
}
use pico_uart.Usb.Hid.Command.{report_version, set_result, handle_command}
use pico_uart.Usb.Hid.Capture.{capture}
use pico_uart.Usb.Hid.Reports.{Board, Telemetry, build_channel, build_diagnostic, build_telemetry}

abbrev pub device_info_id : ℕ
device_info_id = 1

abbrev pub configuration_id : ℕ
configuration_id = 2

abbrev pub telemetry_id : ℕ
telemetry_id = 3

abbrev pub channel_base_id : ℕ
channel_base_id = 10

abbrev pub control_id : ℕ
control_id = 20

abbrev pub diagnostic_base_id : ℕ
diagnostic_base_id = 30

-- `hid_report_type_t`
pub data ReportType : Type 0 where
  invalid_type input output feature : ReportType

abbrev pub is_feature : ReportType → Bool
is_feature feature = true
is_feature _ = false

abbrev pub is_input : ReportType → Bool
is_input input = true
is_input _ = false

abbrev pub control_payload : Hid → List ℕ
control_payload hid =
    report_version ∷ hid.command ∷ status_code hid.command_status ∷ error_code hid.error_reason ∷ []

-- The payload of a report before it is cut to the host's length, with the state after its capture.
unfoldable pub channel_payload : Env → ℕ → Hid → Option (List ℕ) × Hid
channel_payload env index hid =
    let (ok, hid') = capture_at env index hid in
    (
      if ok
          then build_channel (env.snapshot index) false (env.now_us / 1000) (channel_at hid' index)
          else none,
      hid',
    )

unfoldable pub diagnostic_payload : Env → ℕ → Hid → Option (List ℕ) × Hid
diagnostic_payload env index hid =
    let (ok, hid') = capture_at env index hid in
    (if ok then some (build_diagnostic env.now_us (channel_at hid' index)) else none, hid')

-- The chain of reports by type and number.
unfoldable pub report_payload : Env → ℕ → ReportType → Hid → Option (List ℕ) × Hid
report_payload env id kind hid =
    if is_feature kind && id == device_info_id
    then (some hid.identity, hid)
    else if is_feature kind && id == configuration_id
    then (some hid.configuration, hid)
    else if is_feature kind && id == control_id
    then (some (control_payload hid), hid)
    else if is_feature kind && id == telemetry_id
    then (build_telemetry hid.identity env.telemetry, hid)
    else if (is_feature kind || is_input kind)
        && leb channel_base_id id
        && ltb id (channel_base_id + port_count)
    then channel_payload env (id - channel_base_id) hid
    else if is_feature kind && leb diagnostic_base_id id && ltb id (diagnostic_base_id + port_count)
    then diagnostic_payload env (id - diagnostic_base_id) hid
    else (none, hid)

-- `tud_hid_get_report_cb`: what it writes to the buffer, whose length it returns.
unfoldable pub get_report : Env → ℕ → ℕ → ReportType → ℕ → Hid → List ℕ × Hid
get_report env instance_id id kind reqlen hid =
    let (payload, hid') = report_payload env id kind hid in
    if instance_id != 0 then ([], hid) else (
      elim payload [
        | none ↦ []
        | some bytes ↦ take (if ltb reqlen (length bytes) then reqlen else length bytes) bytes
      ],
      hid',
    )

-- `tud_hid_set_report_cb`
unfoldable pub set_report :
    (ℕ → ℕ) → Bool → ℕ → ℕ → ReportType → Option (List ℕ) → ℕ → Hid → Hid × Option Bool
set_report make_timeout_time_ms sessions_closed instance_id id kind buffer size hid =
    let (ok, hid', led) = handle_command make_timeout_time_ms sessions_closed buffer size hid in
    if instance_id == 0 && is_feature kind && id == control_id then (hid', led) else (hid, none)

-- The reply of a GET at its setup stage: nothing, which stalls, or the bytes that are transferred,
-- after their number if the host's buffer has room.
unfoldable pub get_transfer : Env → ℕ → ReportType → ℕ → Hid → Option (List ℕ) × Hid
get_transfer env id kind wanted hid =
    let request_length =
      if ltb wanted hid_endpoint_buffer_size then wanted else hid_endpoint_buffer_size in
    let (payload, hid') = get_report env 0 id kind request_length hid in
    (
      if length payload == 0
          then none
          else if id != 0 && ltb (length payload) request_length
          then some (id ∷ payload)
          else some payload,
      hid',
    )

-- A SET is let through only for the control report, while no result is protected.
unfoldable pub set_allowed : Bool → ReportType → ℕ → Hid → Bool
set_allowed is_out kind id hid = not (
    not is_out
    || not (is_feature kind)
    || id != control_id
    || is_pending hid.command_status
    || hid.reboot_pending)

-- The setup stage of a SET: whether data are wanted, for a buffer filled with 0xff.
unfoldable pub set_setup : Bool → ReportType → ℕ → ℕ → Hid → Bool × Hid
set_setup is_out kind id wanted hid =
    if not (set_allowed is_out kind id hid)
    then (false, hid)
    else if wanted == 0 || ltb hid_endpoint_buffer_size wanted
    then (false, set_result 0 invalid malformed hid)
    else (true, hid)

-- The buffer at the data stage: what was received over the 0xff of the setup.
unfoldable pub received_buffer : List ℕ → List ℕ
received_buffer received =
    take hid_endpoint_buffer_size (received ++ replicate hid_endpoint_buffer_size 0xff)

-- The data stage: a leading report number is skipped.
unfoldable pub set_data :
    (ℕ → ℕ) → Bool → Bool → ReportType → ℕ → ℕ → List ℕ → Hid → Bool × Hid × Option Bool
set_data make_timeout_time_ms sessions_closed is_out kind id wanted received hid =
    let buffer = received_buffer received in
    let named = ltb 1 wanted && get_or buffer 0 0 == id in
    if not (set_allowed is_out kind id hid)
    then (false, hid, none)
    else handle_command make_timeout_time_ms sessions_closed
        (some (if named then drop 1 buffer else buffer)) (if named then wanted - 1 else wanted) hid

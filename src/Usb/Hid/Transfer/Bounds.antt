-- ===== src/Usb/Hid/Transfer/Bounds.antt =====
-- How many bytes a GET transfer carries: `__wrap_hidd_control_xfer_cb` of
-- firmware/src/usb/usb_hid.c.
use pico_uart.Usb.{hid_endpoint_buffer_size}
use pico_uart.Usb.Hid.{Hid}
use pico_uart.Usb.Hid.Poll.{Env}
use pico_uart.Prelude.{
  length-take, ◌∷◌, by_option, ◌&&◌, arith, none, ◌!=◌, by_test, ◌==◌, ◌<◌, ◌≤◌, length, ltb, some,
  if◌then◌else◌, Option, List, ℕ,
}
use pico_uart.Usb.Hid.Transfer.{ReportType, get_report, get_transfer, report_payload}

length-get_report :
    (env : Env) (instance_id id : ℕ) (kind : ReportType) (reqlen : ℕ) (hid : Hid)
    → length (get_report env instance_id id kind reqlen hid).0 ≤ reqlen
unfolding get_report
length-get_report env instance_id id kind reqlen hid =
    by_test (λ (r : List ℕ × Hid). length r.0 ≤ reqlen) (instance_id != 0) (λ _. omega arith)
      (λ _.
        by_option (λ (bytes : List ℕ). length bytes ≤ reqlen) (report_payload env id kind hid).0 _ _
          (λ _. omega arith)
          (λ bytes _. ground (
            arith,
            length-take (if ltb reqlen (length bytes) then reqlen else length bytes) bytes,
          )))

-- Nothing, or at least one byte and at most what the host has asked for and a packet holds
abbrev pub IsReply : ℕ → Option (List ℕ) → Type 0
IsReply wanted none = Unit
IsReply wanted (some bytes) =
    (0 < length bytes) × (length bytes ≤ wanted) × (length bytes ≤ hid_endpoint_buffer_size)

payload-IsReply :
    (wanted id : ℕ) (payload : List ℕ)
    → let room = if ltb wanted hid_endpoint_buffer_size then wanted else hid_endpoint_buffer_size in
      length payload ≤ room
      → IsReply wanted (
          if length payload == 0
          then none
          else if id != 0 && ltb (length payload) room
          then some (id ∷ payload)
          else some payload)
payload-IsReply wanted id payload h =
    let room = if ltb wanted hid_endpoint_buffer_size then wanted else hid_endpoint_buffer_size in
    by_test (IsReply wanted) (length payload == 0) (λ _. tt)
      (λ n.
        by_test (IsReply wanted) (id != 0 && ltb (length payload) room)
          (λ r. (ground arith, ground arith, ground arith))
          (λ r. (ground arith, ground arith, ground arith)))

-- A GET transfer of any report, at any state of the device, either stalls or carries at least one byte
-- and no more than the host has asked for and than one packet of 64 bytes holds, with the report's
-- number before the payload where it has been put.
pub get_transfer_lem :
    (env : Env) (id : ℕ) (kind : ReportType) (wanted : ℕ) (hid : Hid)
    → IsReply wanted (get_transfer env id kind wanted hid).0
unfolding get_transfer
get_transfer_lem env id kind wanted hid =
    let room = if ltb wanted hid_endpoint_buffer_size then wanted else hid_endpoint_buffer_size in
    payload-IsReply wanted id (get_report env 0 id kind room hid).0
      (length-get_report env 0 id kind room hid)

-- ===== src/Usb/Hid/Tests.antt =====
-- The HID side's theorems at a board with all capabilities.
use pico_uart.Prelude.{
  ◌<◌, ◌↔◌, ◌≤◌, ◌⊎◌, false, is_some, ◌+◌, [], Bool, refl, ◌≡◌, true, ◌++◌, ◌∷◌, Option, ℕ, arith,
  some, List, replicate,
}
use pico_uart.Usb.{PortStats}
use pico_uart.Usb.Hid.{Hid, HidError, idle, pending, is_pending}
use pico_uart.Usb.Hid.Command.{handle_command, execute_pending_save, is_framed}
use pico_uart.Usb.Hid.Command.Accepts.{Accepted, command_iff}
use pico_uart.Usb.Hid.Command.Saves.{IsSaved, IsUnsaved, execute_pending_save_lem}
use pico_uart.Usb.Hid.Capture.{capture, raw_bytes}
use pico_uart.Usb.Hid.Capture.Counters.{Agree, AtMost}
use pico_uart.Usb.Hid.Capture.Step.{IsKept}
use pico_uart.Usb.Hid.Capture.Totals.{capture_lem}
use pico_uart.Usb.Hid.Reports.{build_channel}
use pico_uart.Usb.Hid.Reports.Decode.{IsRead, build_channel_decode}
use pico_uart.Usb.Hid.Poll.{Env, zero_channel, zero_port_stats, zero_cdc_stats}
use pico_uart.Usb.Hid.Transfer.{get_transfer, feature}
use pico_uart.Usb.Hid.Transfer.Bounds.{IsReply, get_transfer_lem}
use pico_uart.Usb.Hid.Transfer.Protect.{host_calls, get_call, set_call, session_call, protected_lem}
use pico_uart.Platform.BootConfig.{defaults, erased}
use pico_uart.Platform.BootConfig.Store.{program, page_of, State}
use pico_uart.Runtime.{PortInfo, no_error, baud_error, pio_backend}

-- The capabilities are byte 17.
abbrev waiting : Hid
waiting = record {
  channels = replicate 6 zero_channel;
  identity = replicate 17 0 ++ 7 ∷ replicate 9 0;
  configuration = replicate 36 0;
  command_status = idle;
  command = 0;
  requested_profile = 0;
  error_reason = HidError.no_error;
  reboot_deadline = 0;
  reboot_pending = false;
  next_channel = 0;
  next_fault_sample_ms = 0;
}

abbrev later : ℕ → ℕ
later ms = ms + 5

-- A save of profile 2, with the acknowledgement
abbrev save_request : Option (List ℕ)
save_request = some (1 ∷ 4 ∷ 3 ∷ 2 ∷ [])

command_iff_example :
    let (_, hid', led) = handle_command later true save_request 4 waiting in
    let b1 : ℕ = 4 in
    let A = Accepted 7 true true b1 3 2 in
    ((is_some led ≡ true) ↔ (A × (b1 < 3)))
    × ((hid'.reboot_pending ≡ true) ↔ (A × (b1 ≡ 3)))
    × ((is_pending hid'.command_status ≡ true) ↔ (A × (b1 ≡ 4)))
    × (is_pending hid'.command_status ≡ true → hid'.requested_profile ≡ 2)
unfolding is_framed
command_iff_example =
    command_iff later true save_request 4 waiting refl refl (omega arith) (omega arith)

abbrev saving : Hid
saving = record waiting { command_status = pending; command = 4; requested_profile = 2 }

abbrev erased_sector : List ℕ
erased_sector = replicate 4096 0xff

abbrev erase_sector : List ℕ → List ℕ
erase_sector sector = erased_sector

abbrev write_page : List ℕ → List ℕ → List ℕ
write_page page sector = page ++ replicate 3840 0xff

abbrev execute_change : (List ℕ → List ℕ) → List ℕ → Bool × List ℕ
execute_change change sector = (true, change sector)

abbrev boot : State
boot = record {
  clock_profile = 0;
  status = record {
    source = defaults;
    reason = erased;
    stored_profile = 0xffff_ffff;
    active_profile = 0;
  };
  sector = erased_sector;
}

execute_pending_save_lem_example :
    let r =
      execute_pending_save erase_sector write_page execute_change later true true saving boot in
    let change = program erase_sector write_page execute_change (page_of 2) in
    (is_pending r.0.command_status ≡ false)
    × (((true ≡ true) × IsSaved later true saving r)
        ⊎ IsUnsaved true (execute_change change erased_sector).0 saving boot r)
execute_pending_save_lem_example =
    execute_pending_save_lem erase_sector write_page execute_change later true true saving boot

abbrev port_info : PortInfo
port_info = record {
  id = 0;
  backend = pio_backend;
  tx_pin = 4;
  rx_pin = 5;
  rts_pin = 0xff;
  cts_pin = 0xff;
  line_coding = record { baud_rate = 9600; data_bits = 8; stop_bits = 1; parity = 0 };
}

abbrev traffic : PortStats
traffic = record zero_port_stats { uart_tx_bytes = 70000; rx_error_count = 2 }

abbrev env : Env
env = record {
  now_us = 7000000;
  port_stats = λ i. some traffic;
  cdc_stats = λ i. some zero_cdc_stats;
  history = λ i. some (record { reason = no_error; uptime_us = 0 });
  snapshot = λ i. some (port_info, 1);
  telemetry = record {
    led = some true;
    temperature = some 2500;
    uptime_us = 7000000;
    load_0 = 10;
    load_1 = 20;
    clock = 150000000;
  };
}

protected_lem_example :
    let calls =
      get_call env 10 feature 64
      ∷ set_call later true 20 feature (some (1 ∷ 1 ∷ 0 ∷ 0 ∷ [])) 4
      ∷ session_call 9
      ∷ [] in
    let hid' = host_calls calls saving in
    (hid'.command ≡ 4)
    × (hid'.command_status ≡ pending)
    × (hid'.error_reason ≡ HidError.no_error)
    × (hid'.requested_profile ≡ 2)
    × (hid'.reboot_pending ≡ false)
    × (hid'.reboot_deadline ≡ 0)
protected_lem_example =
    protected_lem
      (get_call env 10 feature 64
        ∷ set_call later true 20 feature (some (1 ∷ 1 ∷ 0 ∷ 0 ∷ [])) 4
        ∷ session_call 9
        ∷ [])
      saving refl

zero_channel-IsKept : IsKept zero_channel
zero_channel-IsKept = record {
  agree = (refl, (refl, (refl, (refl, tt))));
  four = refl;
  peaks = refl;
  counts = refl;
  baselines = refl;
  widths = (omega arith, (omega arith, tt));
  raw = (omega arith, (omega arith, (omega arith, (omega arith, tt))));
}

capture_lem_example :
    let (ok, captured) =
      capture 7000000
        (some traffic)
        (some zero_cdc_stats)
        (some (record { reason = baud_error; uptime_us = 3000000 }))
        zero_channel in
    IsKept captured
    × (ok ≡ true → Agree captured.total (raw_bytes captured))
    × AtMost zero_channel.peaks captured.peaks
    × AtMost zero_channel.rx_count captured.rx_count
    × (zero_channel.last_fault_s ≤ captured.last_fault_s)
capture_lem_example =
    capture_lem 7000000 (some traffic) (some zero_cdc_stats)
      (some (record { reason = baud_error; uptime_us = 3000000 })) zero_channel
      (omega arith, (omega arith, (omega arith, (omega arith, (omega arith, tt)))))
      (omega arith, omega arith) zero_channel-IsKept

build_channel_decode_example :
    IsRead port_info 1 900 true zero_channel zero_channel.total
      (build_channel (some (port_info, 1)) true 900 zero_channel)
build_channel_decode_example =
    build_channel_decode port_info 1 900 0 0 0 0 true zero_channel (omega arith) refl

get_transfer_lem_example : IsReply 16 (get_transfer env 10 feature 16 waiting).0
get_transfer_lem_example = get_transfer_lem env 10 feature 16 waiting

-- ===== src/Platform/Tests.antt =====
-- Boot settings on a flash that behaves, and a loop that is half busy.
use pico_uart.Platform.BootConfig.Save.{save_lem, SaveOutcome}
use pico_uart.Platform.BootConfig.Codec.{decode_safe, decode-encode}
use pico_uart.Platform.ServiceLoad.Ratio.{service_load_lem, Pass, passes}
use pico_uart.Platform.BootConfig.Store.{page_of, program, holds_profile, State, save_with_result}
use pico_uart.Platform.ServiceLoad.{unavailable, init, read_load, Core}
use pico_uart.Prelude.{
  ◌⊎◌, [], ◌≤◌, ◌≢◌, ◌∷◌, Bool, replicate, true, ◌++◌, ℕ, List, false, ◌≡◌, arith,
}
use pico_uart.Platform.BootConfig.{
  clock_khz, stored, erased, save_ok, profile_supported, defaults, encode, decode, accept,
}

decode-encode_example : decode false (encode 4 ++ replicate 4060 0xff) true ≡ accept false true 4
decode-encode_example = decode-encode false true 4 (omega arith)

abbrev erased_sector : List ℕ
erased_sector = replicate 4096 0xff

decode_safe_example :
    let status = decode false erased_sector true in
    (profile_supported status.active_profile ≡ true)
    × (true ≡ true → status.active_profile ≡ 0)
    × (status.source ≢ stored → status.active_profile ≡ 0)
    × (false ≡ false → clock_khz status.active_profile ≤ 250000)
decode_safe_example = decode_safe false true erased_sector

-- A flash driver that always succeeds.
abbrev erase_sector : List ℕ → List ℕ
erase_sector sector = erased_sector

abbrev write_page : List ℕ → List ℕ → List ℕ
write_page page sector = page ++ replicate 3840 0xff

abbrev execute_change : (List ℕ → List ℕ) → List ℕ → Bool × List ℕ
execute_change change sector = (true, change sector)

abbrev unsaved : State
unsaved = record {
  clock_profile = 2;
  status = record {
    source = defaults;
    reason = erased;
    stored_profile = 0xffff_ffff;
    active_profile = 0;
  };
  sector = erased_sector;
}

save_lem_example :
    let r = save_with_result erase_sector write_page execute_change true unsaved in
    let change = program erase_sector write_page execute_change (page_of 2) in
    SaveOutcome true unsaved (execute_change change erased_sector) r
    × (holds_profile true erased_sector 2 ≡ true → r ≡ (save_ok, unsaved))
save_lem_example = save_lem erase_sector write_page execute_change true unsaved

abbrev two_passes : List Pass
two_passes =
    record { begins = 0xffff_ff00; ends = 0x1_0008_0000; works = true }
    ∷ record { begins = 0x1_0009_0000; ends = 0x1_0010_0000; works = false }
    ∷ []

abbrev boot_core : Core
boot_core = record {
  window_start = 0;
  pass_start = 0;
  busy_us = 0;
  started = false;
  measuring = false;
  worked = false;
  published = 0;
}

service_load_lem_example :
    let load = read_load (passes two_passes (init boot_core)) in
    (load ≤ 10000) ⊎ (load ≡ unavailable)
service_load_lem_example =
    service_load_lem 0xffff_0000 two_passes boot_core
      (omega arith, omega arith, omega arith, (omega arith, omega arith, omega arith, tt))

-- ===== src/Platform/BootConfig/Store.antt =====
-- The settings cache, the status, and saving to flash: the rest of
-- firmware/src/platform/boot_config.c. The SDK's flash calls are the parameters
-- `flash_range_erase`, `flash_range_program` and `flash_safe_execute`; the last one runs a change of
-- the sector and says whether the call succeeded.
use pico_uart.Prelude.{true, ◌&&◌, ◌==◌, not, false, if◌then◌else◌, ◌++◌, ℕ, Bool, List}
use pico_uart.Platform.BootConfig.{
  page_size, take, profile_unavailable, bytes_equal, replicate, is_ok, is_save_ok,
  clock_unavailable_reason, defaults, Status, SaveResult, save_ok, flash_failed, verify_failed,
  decode, encode, profile_supported,
}

-- `boot_config_settings`, `boot_config_status` and the reserved flash sector.
pub record State : Type 0 where
  pub clock_profile : ℕ
  pub status : Status
  pub sector : List ℕ

unfoldable pub load : Bool → Bool → State → State
load rp2350 recovery s =
    let status = decode rp2350 s.sector recovery in
    record {
      clock_profile =
          if status.stored_profile == profile_unavailable then 0 else status.stored_profile;
      status = status;
      sector = s.sector;
    }

unfoldable pub get : State → ℕ
get s = s.clock_profile

unfoldable pub get_status : State → Status
get_status s = s.status

unfoldable pub set_config : ℕ → State → Bool × State
set_config profile s =
    if not (profile_supported profile)
    then (false, s)
    else (true, record { clock_profile = profile; status = s.status; sector = s.sector })

unfoldable pub clock_unavailable : State → State
clock_unavailable s = record {
  clock_profile = s.clock_profile;
  status = record {
    source = defaults;
    reason = clock_unavailable_reason;
    stored_profile = s.status.stored_profile;
    active_profile = 0;
  };
  sector = s.sector;
}

-- `page`: the record in an erased page.
unfoldable pub page_of : ℕ → List ℕ
page_of profile = encode profile ++ replicate 220 0xff

-- The sector holds an accepted record of this profile.
unfoldable pub holds_profile : Bool → List ℕ → ℕ → Bool
holds_profile rp2350 sector profile =
    let status = decode rp2350 sector false in
    is_ok status.reason && status.stored_profile == profile

module _ (flash_range_erase : List ℕ → List ℕ) (flash_range_program : List ℕ → List ℕ → List ℕ)
    (flash_safe_execute : (List ℕ → List ℕ) → List ℕ → Bool × List ℕ) where
  unfoldable pub program : List ℕ → List ℕ → List ℕ
  program page sector = flash_range_program page (flash_range_erase sector)

  unfoldable pub save_with_result : Bool → State → SaveResult × State
  save_with_result rp2350 s =
      let profile = s.clock_profile in
      let page = page_of profile in
      let (executed, sector) = flash_safe_execute (program page) s.sector in
      let s' : State = record { clock_profile = profile; status = s.status; sector = sector } in
      if holds_profile rp2350 s.sector profile
      then (save_ok, s)
      else if not executed
      then (flash_failed, s')
      else if not (bytes_equal (take page_size sector) page)
      then (verify_failed, s')
      else if holds_profile rp2350 sector profile
      then (save_ok, s')
      else (verify_failed, s')

  unfoldable pub save : Bool → State → Bool × State
  save rp2350 s = let (result, s') = save_with_result rp2350 s in (is_save_ok result, s')

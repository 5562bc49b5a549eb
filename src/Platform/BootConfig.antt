-- ===== src/Platform/BootConfig.antt =====
-- The stored boot settings: firmware/src/platform/boot_config.c. A profile is a number, as the C
-- enumeration is; the flash sector is the list of its bytes. `recovery` and the board
-- (`PICO_RP2350`) are arguments; the SDK's flash driver is a parameter of `save_with_result`.
pub mod Codec
pub mod Save
pub mod Store
use pico_uart.Prelude.{
  ◌||◌, not, ◌*◌, sub32, replicate, ◌!=◌, drop, false, ◌++◌, u8, ◌==◌, length, zero, ◌&&◌, bit_and,
  [], ◌+◌, ◌∷◌, suc, true, take, ltb, set, get_or, if◌then◌else◌, ◌/◌, Bool, ℕ, List,
}
use Prim.Native.Nat.{bit_xor}

abbrev pub sector_size : ℕ
sector_size = 4096

abbrev pub record_size : ℕ
record_size = 36

-- `FLASH_PAGE_SIZE`
abbrev pub page_size : ℕ
page_size = 256

abbrev pub profile_unavailable : ℕ
profile_unavailable = 0xffff_ffff

-- `boot_clock_definitions`
abbrev pub clock_definitions : List ℕ
clock_definitions = 0 ∷ 150000 ∷ 200000 ∷ 250000 ∷ 280000 ∷ []

-- `boot_config_source_t`
pub data Source : Type 0 where
  defaults stored recovery_source : Source

-- `boot_config_reason_t`
pub data Reason : Type 0 where
  ok erased invalid_header crc_failed unsupported_version invalid_profile : Reason
  watchdog_recovery clock_unavailable_reason : Reason

-- `boot_config_status_t`
pub record Status : Type 0 where
  pub source : Source
  pub reason : Reason
  pub stored_profile : ℕ
  pub active_profile : ℕ

-- `boot_config_save_result_t`
pub data SaveResult : Type 0 where
  save_ok flash_failed verify_failed : SaveResult

-- `reason == BOOT_CONFIG_OK`
abbrev pub is_ok : Reason → Bool
is_ok ok = true
is_ok _ = false

-- `result == BOOT_CONFIG_SAVE_OK`
abbrev pub is_save_ok : SaveResult → Bool
is_save_ok save_ok = true
is_save_ok _ = false

-- The byte at an offset; `|` of the shifted bytes is their sum.
unfoldable pub read_u32 : List ℕ → ℕ → ℕ
read_u32 bytes i =
    get_or bytes i 0
    + get_or bytes (i + 1) 0 * 0x100
    + get_or bytes (i + 2) 0 * 0x1_0000
    + get_or bytes (i + 3) 0 * 0x100_0000

-- One bit of the loop of `crc_byte`: the mask `0 - (crc & 1)` is all ones or zero.
unfoldable pub crc_bit : ℕ → ℕ
crc_bit crc = bit_xor (crc / 2) (bit_and 0xedb8_8320 (sub32 0 (bit_and crc 1)))

unfoldable pub crc_bits : ℕ → ℕ → ℕ
crc_bits zero crc = crc
crc_bits (suc n) crc = crc_bits n (crc_bit crc)

unfoldable pub crc_byte : ℕ → ℕ → ℕ
crc_byte crc value = crc_bits 8 (bit_xor crc value)

unfoldable pub crc_bytes : ℕ → List ℕ → ℕ
crc_bytes crc [] = crc
crc_bytes crc (b ∷ bs) = crc_bytes (crc_byte crc b) bs

unfoldable pub crc32 : List ℕ → ℕ
crc32 bytes = bit_xor (crc_bytes 0xffff_ffff bytes) 0xffff_ffff

unfoldable pub clock_khz : ℕ → ℕ
clock_khz profile =
    if ltb profile (length clock_definitions) then get_or clock_definitions profile 0 else 0

unfoldable pub profile_supported : ℕ → Bool
profile_supported profile = ltb profile (length clock_definitions)

-- `memcmp(a, b, n) == 0` of two arrays of at least `n` bytes.
unfoldable pub bytes_equal : List ℕ → List ℕ → Bool
bytes_equal [] [] = true
bytes_equal (a ∷ as') (b ∷ bs) = a == b && bytes_equal as' bs
bytes_equal [] (b ∷ bs) = false
bytes_equal (a ∷ as') [] = false

-- `for (...) if (sector[index] != value) ...`
unfoldable pub all_equal : ℕ → List ℕ → Bool
all_equal value [] = true
all_equal value (b ∷ bs) = b == value && all_equal value bs

-- "PUCF"
abbrev pub signature : List ℕ
signature = 0x50 ∷ 0x55 ∷ 0x43 ∷ 0x46 ∷ []

-- The record before its checksum: `memset`, `memcpy` and the five stores.
unfoldable pub encode_header : ℕ → List ℕ
encode_header profile =
    set (set (set (set (signature ++ replicate 32 0) 4 1) 6 32) 8 record_size) 32 (u8 profile)

-- The bytes that the checksum covers.
unfoldable pub protected_bytes : List ℕ → List ℕ
protected_bytes record_ = take 12 record_ ++ drop 16 (take record_size record_)

unfoldable pub encode : ℕ → List ℕ
encode profile =
    let header = encode_header profile in
    let crc = crc32 (protected_bytes header) in
    set (set (set (set header 12 (u8 crc)) 13 (u8 (crc / 0x100))) 14 (u8 (crc / 0x1_0000))) 15
      (u8 (crc / 0x100_0000))

abbrev pub rejected : Reason → Status
rejected reason = record {
  source = defaults;
  reason = reason;
  stored_profile = profile_unavailable;
  active_profile = 0;
}

-- The outcome for a profile of an accepted record.
unfoldable pub accept : Bool → Bool → ℕ → Status
accept rp2350 recovery profile =
    if recovery && profile != 0
    then record {
      source = recovery_source;
      reason = watchdog_recovery;
      stored_profile = profile;
      active_profile = 0;
    }
    else record {
      source = stored;
      reason = ok;
      stored_profile = profile;
      active_profile = if not rp2350 && profile == 4 then 3 else profile;
    }

unfoldable pub decode : Bool → List ℕ → Bool → Status
decode rp2350 sector recovery =
    if length sector != sector_size
    then rejected invalid_header
    else if all_equal 0xff sector
    then rejected erased
    else if not (bytes_equal (take 4 sector) signature)
    then rejected invalid_header
    else if get_or sector 4 0 != 1 || get_or sector 5 0 != 0
    then rejected unsupported_version
    else if get_or sector 6 0 != 32 || get_or sector 7 0 != 0 || read_u32 sector 8 != record_size
    then rejected invalid_header
    else if crc32 (protected_bytes sector) != read_u32 sector 12
    then rejected crc_failed
    else if not (all_equal 0 (drop 16 (take 32 sector)))
    then rejected invalid_header
    else if not (all_equal 0xff (drop record_size sector))
    then rejected invalid_header
    else if not (profile_supported (read_u32 sector 32))
    then rejected invalid_profile
    else accept rp2350 recovery (read_u32 sector 32)

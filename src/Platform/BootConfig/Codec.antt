-- ===== src/Platform/BootConfig/Codec.antt =====
-- What is written is read back, and what is read is safe.
use pico_uart.Prelude.{
  ltb→lt, ltb, Bool-cases, inr, ◌≤◌, ◌||◌, ◌≢◌, inl, not, true, false, ◌++◌, ◌!=◌, ◌<◌,
  if◌then◌else◌, ℕ, List, Bool, refl, ◌≡◌, arith, ◌⊎◌,
}
use pico_uart.Platform.BootConfig.{
  drop, crc_failed, record_size, unsupported_version, get_or, signature, take, erased,
  invalid_header, sector_size, invalid_profile, length, bytes_equal, all_equal, crc_bit, crc_bits,
  crc_byte, crc_bytes, stored, crc32, replicate, protected_bytes, Status, encode_header, read_u32,
  Reason, encode, decode, accept, profile_supported, rejected, is_ok, clock_khz,
}

below_five : (n : ℕ) → n < 5 → (n ≡ 0) ⊎ (n ≡ 1) ⊎ (n ≡ 2) ⊎ (n ≡ 3) ⊎ (n ≡ 4)
below_five n h = ground arith

-- The sector after an erase and the write of a record.
abbrev pub flash_image : ℕ → List ℕ
flash_image profile = encode profile ++ replicate 4060 0xff

module _ (rp2350 recovery : Bool) where
  decode_0 : decode rp2350 (flash_image 0) recovery ≡ accept rp2350 recovery 0
  unfolding decode accept encode encode_header protected_bytes crc32 crc_bytes crc_byte crc_bits
      crc_bit read_u32 all_equal bytes_equal profile_supported
  decode_0 = refl

  decode_1 : decode rp2350 (flash_image 1) recovery ≡ accept rp2350 recovery 1
  unfolding decode accept encode encode_header protected_bytes crc32 crc_bytes crc_byte crc_bits
      crc_bit read_u32 all_equal bytes_equal profile_supported
  decode_1 = refl

  decode_2 : decode rp2350 (flash_image 2) recovery ≡ accept rp2350 recovery 2
  unfolding decode accept encode encode_header protected_bytes crc32 crc_bytes crc_byte crc_bits
      crc_bit read_u32 all_equal bytes_equal profile_supported
  decode_2 = refl

  decode_3 : decode rp2350 (flash_image 3) recovery ≡ accept rp2350 recovery 3
  unfolding decode accept encode encode_header protected_bytes crc32 crc_bytes crc_byte crc_bits
      crc_bit read_u32 all_equal bytes_equal profile_supported
  decode_3 = refl

  decode_4 : decode rp2350 (flash_image 4) recovery ≡ accept rp2350 recovery 4
  unfolding decode accept encode encode_header protected_bytes crc32 crc_bytes crc_byte crc_bits
      crc_bit read_u32 all_equal bytes_equal profile_supported
  decode_4 = refl

-- A record that was written is accepted, with its profile, on either board and in either boot.
pub decode-encode :
    (rp2350 recovery : Bool) (profile : ℕ)
    → profile < 5
    → decode rp2350 (encode profile ++ replicate 4060 0xff) recovery
      ≡ accept rp2350 recovery profile
decode-encode rp2350 recovery profile h = elim (below_five profile h) [
  | inl e ↦ rw e (decode_0 rp2350 recovery)
  | inr (inl e) ↦ rw e (decode_1 rp2350 recovery)
  | inr (inr (inl e)) ↦ rw e (decode_2 rp2350 recovery)
  | inr (inr (inr (inl e))) ↦ rw e (decode_3 rp2350 recovery)
  | inr (inr (inr (inr (e)))) ↦ rw e (decode_4 rp2350 recovery)
]

-- Either a sector is rejected for one reason, or it holds one supported profile, whatever the board
-- and the boot.
abbrev pub Shape : (Bool → Bool → Status) → Type 0
Shape f =
    ((r : Reason) × (is_ok r ≡ false) × ((a b : Bool) → f a b ≡ rejected r))
    ⊎ ((p : ℕ) × (p < 5) × ((a b : Bool) → f a b ≡ accept a b p))

reject_if :
    (t : Bool) (r : Reason) {g : Bool → Bool → Status}
    → is_ok r ≡ false
    → Shape g
    → Shape (λ a b. if t then rejected r else g a b)
reject_if true r h y = inl (r, h, λ a b. refl)
reject_if false r h y = y

accept-Shape :
    (profile : ℕ)
    → Shape (λ a b.
      if not (profile_supported profile) then rejected invalid_profile else accept a b profile)
unfolding profile_supported
accept-Shape profile = elim (Bool-cases (ltb profile 5)) [
  | inl h ↦ inr (profile, ltb→lt profile 5 h, λ a b. ground arith)
  | inr h ↦ inl (invalid_profile, refl, λ a b. ground arith)
]

pub decode-Shape : (sector : List ℕ) → Shape (λ a b. decode a sector b)
unfolding decode
decode-Shape sector = reject_if (length sector != sector_size) invalid_header refl (
    reject_if (all_equal 0xff sector) erased refl (
      reject_if (not (bytes_equal (take 4 sector) signature)) invalid_header refl (
        reject_if (get_or sector 4 0 != 1 || get_or sector 5 0 != 0) unsupported_version refl (
          reject_if
            (get_or sector 6 0 != 32 || get_or sector 7 0 != 0 || read_u32 sector 8 != record_size)
            invalid_header refl
            (reject_if (crc32 (protected_bytes sector) != read_u32 sector 12) crc_failed refl (
              reject_if (not (all_equal 0 (drop 16 (take 32 sector)))) invalid_header refl (
                reject_if (not (all_equal 0xff (drop record_size sector))) invalid_header refl
                  (accept-Shape (read_u32 sector 32)))))))))

accept_safe :
    (rp2350 recovery : Bool) (p : ℕ)
    → p < 5
    → let status = accept rp2350 recovery p in
      (profile_supported status.active_profile ≡ true)
      × (recovery ≡ true → status.active_profile ≡ 0)
      × (status.source ≢ stored → status.active_profile ≡ 0)
      × (rp2350 ≡ false → clock_khz status.active_profile ≤ 250000)
unfolding accept profile_supported clock_khz
accept_safe rp2350 recovery p h = elim (below_five p h) [
  | inl e ↦ rw e (ground arith, λ q. ground arith, λ q. ground arith, λ q. ground arith)
  | inr (inl e) ↦ rw e (ground arith, λ q. ground arith, λ q. ground arith, λ q. ground arith)
  | inr (inr (inl e)) ↦ rw e (ground arith, λ q. ground arith, λ q. ground arith, λ q. ground arith)
  | inr (inr (inr (inl e))) ↦
      rw e (ground arith, λ q. ground arith, λ q. ground arith, λ q. ground arith)
  | inr (inr (inr (inr (e)))) ↦
      rw e (ground arith, λ q. ground arith, λ q. ground arith, λ q. ground arith)
]

-- Whatever the flash holds, the profile that the boot applies is a supported one; it is the SDK's
-- default in a recovery boot, and when the settings are not the stored ones; on the RP2040 its
-- clock is at most 250 MHz.
pub decode_safe :
    (rp2350 recovery : Bool) (sector : List ℕ)
    → let status = decode rp2350 sector recovery in
      (profile_supported status.active_profile ≡ true)
      × (recovery ≡ true → status.active_profile ≡ 0)
      × (status.source ≢ stored → status.active_profile ≡ 0)
      × (rp2350 ≡ false → clock_khz status.active_profile ≤ 250000)
decode_safe rp2350 recovery sector = elim (decode-Shape sector) [
  | inl (r, o, e) ↦
      rw (e rp2350 recovery)
        (unfold profile_supported clock_khz in (refl, λ q. refl, λ q. refl, λ q. omega arith))
  | inr (p, l, e) ↦ rw (e rp2350 recovery) (accept_safe rp2350 recovery p l)
]

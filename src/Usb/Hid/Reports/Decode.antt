-- ===== src/Usb/Hid/Reports/Decode.antt =====
-- What a host reads from the report of a channel: the fields at the offsets of
-- firmware/src/usb/usb_hid.c, against `usb_hid_build_channel`.
use pico_uart.Prelude.{
  refl, sym, none, ltb, Option, subst, sub64, min, if◌then◌else◌, length, some, [], arith, ◌∷◌, ◌≡◌,
  ◌/◌, ◌*◌, ◌%◌, u32_mod, ◌+◌, Bool, ◌<◌, get_or, List, ℕ,
}
use pico_uart.Usb.Hid.{Channel, measurement_code}
use pico_uart.Usb.Hid.Reports.{build_channel, write_u16, write_u32, all_u32, channel_state}
use pico_uart.Runtime.{PortInfo}

-- The little-endian numbers at an offset of a report
abbrev pub read_u16_at : List ℕ → ℕ → ℕ
read_u16_at report i = get_or report i 0 + 0x100 * get_or report (i + 1) 0

abbrev pub read_u32_at : List ℕ → ℕ → ℕ
read_u32_at report i = read_u16_at report i + 0x1_0000 * read_u16_at report (i + 2)

word_bytes :
    (v : ℕ)
    → v < u32_mod
    → v % 256
        + 0x100 * (v / 0x100 % 256)
        + 0x1_0000 * (v / 0x1_0000 % 256 + 0x100 * (v / 0x100_0000 % 256))
      ≡ v
word_bytes v h = omega arith

half_bytes : (v : ℕ) → v < 0x1_0000 → v % 256 + 0x100 * (v / 0x100 % 256) ≡ v
half_bytes v h = omega arith

-- What the host reads from a channel's report
abbrev pub IsRead : PortInfo → ℕ → ℕ → Bool → Channel → List ℕ → Option (List ℕ) → Type 0
IsRead info status now_ms publication channel totals none = ⊥
IsRead info status now_ms publication channel totals (some report) =
    (length report ≡ 30)
    × (get_or report 1 0 ≡ channel_state channel.cdc.opened status)
    × (get_or report 2 0 ≡ measurement_code channel.measurement)
    × (read_u32_at report 3 ≡ info.line_coding.baud_rate)
    × (read_u16_at report 10 ≡ (channel.sequence + (if publication then 1 else 0)) % 0x1_0000)
    × (read_u16_at report 12 ≡ min (sub64 now_ms channel.last_publication_ms) 0xffff)
    × (read_u32_at report 14 ≡ get_or totals 0 0 % u32_mod)
    × (read_u32_at report 18 ≡ get_or totals 1 0 % u32_mod)
    × (read_u32_at report 22 ≡ get_or totals 2 0 % u32_mod)
    × (read_u32_at report 26 ≡ get_or totals 3 0 % u32_mod)

elapsed_bytes :
    (v : ℕ)
    → let e = if ltb 0xffff v then 0xffff else v in
      e % 256 + 0x100 * (e / 0x100 % 256) ≡ min v 0xffff
elapsed_bytes v = ground arith

built :
    (info : PortInfo) (status now_ms t0 t1 t2 t3 : ℕ) (publication : Bool) (channel : Channel)
    → info.line_coding.baud_rate < u32_mod
    → let totals = t0 ∷ t1 ∷ t2 ∷ t3 ∷ [] in
      IsRead info status now_ms publication channel totals
        (build_channel (some (info, status)) publication now_ms (record channel { total = totals }))
unfolding build_channel write_u16 write_u32 all_u32
built info status now_ms t0 t1 t2 t3 publication channel h = (
  refl,
  refl,
  refl,
  word_bytes info.line_coding.baud_rate h,
  half_bytes ((channel.sequence + (if publication then 1 else 0)) % 0x1_0000) (omega arith),
  elapsed_bytes (sub64 now_ms channel.last_publication_ms),
  word_bytes (t0 % u32_mod) (omega arith),
  word_bytes (t1 % u32_mod) (omega arith),
  word_bytes (t2 % u32_mod) (omega arith),
  word_bytes (t3 % u32_mod) (omega arith),
)

-- The report of a channel has 30 bytes, and the host reads back from it the channel's state and
-- measurement, the baud rate, the sequence number, which a publication counts up, the time since the
-- last publication, at most 65535, and the low 32 bits of the four totals.
pub build_channel_decode :
    (info : PortInfo) (status now_ms t0 t1 t2 t3 : ℕ) (publication : Bool) (channel : Channel)
    → info.line_coding.baud_rate < u32_mod
    → channel.total ≡ t0 ∷ t1 ∷ t2 ∷ t3 ∷ []
    → IsRead info status now_ms publication channel channel.total
        (build_channel (some (info, status)) publication now_ms channel)
build_channel_decode info status now_ms t0 t1 t2 t3 publication channel h t =
    subst
      (λ totals. IsRead info status now_ms publication channel totals (
        build_channel (some (info, status)) publication now_ms (record channel { total = totals })))
      (sym t) (built info status now_ms t0 t1 t2 t3 publication channel h)

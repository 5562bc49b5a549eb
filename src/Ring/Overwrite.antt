-- ===== src/Ring/Overwrite.antt =====
-- `ring_buffer_write_byte_overwrite`: the newest bytes stay, and each byte that goes is counted.
use native.Mathlib.Decide.{dec_lt}
use pico_uart.Prelude.{
  refl, sym, length-append, ap, ◌≤◌, ◌∙◌, [], ◌∷◌, u32_mod, ◌-◌, ◌+◌, min, arith, ◌++◌, length, ◌≡◌,
  add32, u32_max, bit_and, drop, set, List, ◌<◌, ℕ,
}
use pico_uart.Ring.{pending_overflow, Ring, write_byte_overwrite, available, update_high_watermark}
use pico_uart.Ring.Invariant.{
  IsValid, write_byte_overwrite-IsValid, available-le, size_pos, bit_and-mask,
}
use pico_uart.Ring.Window.{window, window-set, window_cong, window-add}
use pico_uart.Ring.View.{
  tail_window, pending_overflow_lem, contents, distance, lost, reach, update_high_watermark_lem,
  same_place, length-contents,
}

-- The last `m` items.
abbrev pub newest {ℓ} : {A : Type ℓ} → ℕ → List A → List A
newest m xs = drop (length xs - m) xs

-- The ring that the call leaves, its watermark apart.
abbrev stored_byte : Ring → ℕ → Ring
stored_byte r byte = record r {
  storage = set r.storage (bit_and r.producer r.mask) byte;
  producer = add32 r.producer 1;
  producer_reserved_count = 0;
}

module _ {r : Ring} (v : IsValid r) (byte : ℕ) (near : reach r < u32_max) where
  write_byte_stored : write_byte_overwrite r byte ≡ update_high_watermark (stored_byte r byte)
  unfolding write_byte_overwrite
  write_byte_stored = ground (arith, size_pos v)

  distance-stored : distance (stored_byte r byte) ≡ distance r + 1
  distance-stored = omega arith

  available-stored : available (stored_byte r byte) ≡ min (available r + 1) r.size
  unfolding available
  available-stored = ground (arith, distance-stored)

  -- The window that the byte ends, for any number of bytes before it.
  window-stored :
      (n : ℕ)
      → n < r.size
      → window
          (set r.storage (bit_and r.producer r.mask) byte)
          r.size
          (add32 r.producer 1 + u32_mod - (n + 1))
          (n + 1)
        ≡ window r.storage r.size (r.producer + u32_mod - n) n ++ (byte ∷ [])
  window-stored n h =
      window_cong stored r.size (add32 r.producer 1 + u32_mod - (n + 1)) start (n + 1)
        (same_place v (add32 r.producer 1 + u32_mod - (n + 1)) start (omega arith))
      ∙ ap (λ i. window (set r.storage i byte) r.size start (n + 1))
          (bit_and-mask v r.producer ∙ same_place v r.producer (start + n) (omega arith))
      ∙ window-set r.storage r.size start n byte v.stored h
    where
      start : ℕ
      start = r.producer + u32_mod - n

      stored : List ℕ
      stored = set r.storage (bit_and r.producer r.mask) byte

  contents-stored_at :
      (n : ℕ)
      → available (stored_byte r byte) ≡ n + 1
      → n < r.size
      → contents (stored_byte r byte)
        ≡ window r.storage r.size (r.producer + u32_mod - n) n ++ (byte ∷ [])
  contents-stored_at n e h =
      ap (tail_window (set r.storage (bit_and r.producer r.mask) byte) r.size (add32 r.producer 1))
        e
      ∙ window-stored n h

  length-offered : length (contents r ++ (byte ∷ [])) ≡ available r + 1
  length-offered = omega (arith, length-append (contents r) (byte ∷ []), length-contents r)

  -- A full ring gives up its oldest byte.
  contents_full :
      available r ≡ r.size
      → drop 1 (contents r ++ (byte ∷ []))
        ≡ window r.storage r.size (r.producer + u32_mod - (r.size - 1)) (r.size - 1) ++ (byte ∷ [])
  unfolding window
  contents_full h =
      let start = r.producer + u32_mod - r.size in
      let count : available r ≡ 1 + (r.size - 1) = omega (arith, size_pos v) in
      let next : start + 1 ≡ r.producer + u32_mod - (r.size - 1) = omega (arith, size_pos v) in
      ap (λ t. drop 1 (t ++ (byte ∷ [])))
        (ap (λ k. window r.storage r.size (r.producer + u32_mod - k) (available r)) h
          ∙ ap (window r.storage r.size start) count
          ∙ window-add r.storage r.size start 1 (r.size - 1))
      ∙ ap (λ t. window r.storage r.size t (r.size - 1) ++ (byte ∷ [])) next

  contents-stored : contents (stored_byte r byte) ≡ newest r.size (contents r ++ (byte ∷ []))
  contents-stored = elim (dec_lt (available r) r.size) [
    | yes room ↦
        let all_kept : 0 ≡ length (contents r ++ (byte ∷ [])) - r.size =
          omega (arith, length-offered) in
        contents-stored_at (available r) (omega (arith, available-stored)) room
        ∙ ap (λ k. drop k (contents r ++ (byte ∷ []))) all_kept
    | no full ↦
        let e : available r ≡ r.size = omega (arith, available-le v) in
        let one_gone : 1 ≡ length (contents r ++ (byte ∷ [])) - r.size =
          omega (arith, length-offered) in
        contents-stored_at (r.size - 1) (omega (arith, available-stored, size_pos v))
          (omega (arith, size_pos v))
        ∙ sym (contents_full e)
        ∙ ap (λ k. drop k (contents r ++ (byte ∷ []))) one_gone
  ]

  lost-stored : lost (stored_byte r byte) ≡ min (lost r + (available r + 1 - r.size)) u32_max
  unfolding available
  lost-stored = ground (arith, pending_overflow_lem r, pending_overflow_lem (stored_byte r byte))

-- The call keeps the newest bytes that the storage holds, counts the byte that it overwrote, if
-- any, and moves the counters apart by one at most.
pub write_byte_overwrite_lem :
    {r : Ring} (byte : ℕ)
    → IsValid r
    → reach r < u32_max
    → let r' = write_byte_overwrite r byte in
      IsValid r'
      × (contents r' ≡ newest r.size (contents r ++ (byte ∷ [])))
      × (lost r' ≡ min (lost r + (length (contents r) + 1 - r.size)) u32_max)
      × (r'.size ≡ r.size)
      × (reach r' ≤ reach r + 1)
unfolding available pending_overflow
write_byte_overwrite_lem {r} byte v near =
    let e = write_byte_stored v byte near ∙ update_high_watermark_lem (stored_byte r byte) in
    rw e (
      (rw e at (write_byte_overwrite-IsValid v byte)),
      contents-stored v byte near,
      lost-stored v byte near ∙ lost_count,
      refl,
      omega arith,
    )
  where
    lost_count :
        min (lost r + (available r + 1 - r.size)) u32_max
        ≡ min (lost r + (length (contents r) + 1 - r.size)) u32_max
    lost_count = ap (λ k. min (lost r + (k + 1 - r.size)) u32_max) (sym (length-contents r))

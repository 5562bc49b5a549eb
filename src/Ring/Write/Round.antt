-- ===== src/Ring/Write/Round.antt =====
-- One round of the loop of `ring_buffer_write`.
use native.Mathlib.Nat.{mod-lt}
use pico_uart.Prelude.{
  ◌≤◌, ℕ, ◌+◌, ◌-◌, ◌<◌, ◌≡◌, ◌∙◌, refl, sym, ap, List, ◌++◌, length, take, min, arith, u32_mod,
  add32, bit_and, length-take,
}
use pico_uart.Ring.{
  Ring, available, write_span, commit_produced, update_high_watermark, min32, no_span,
}
use pico_uart.Ring.Transfer.{copy_in, write_chunk}
use pico_uart.Ring.Invariant.{IsValid, available-le, size_pos, bit_and-mask}
use pico_uart.Ring.Window.{window_cong, window-copy_in, length-copy_in}
use pico_uart.Ring.View.{
  lost, pending_overflow_lem, contents, tail_window, distance, available_lem, same_place,
}
use pico_uart.Ring.Append.{Appended}

-- The bytes that one round moves.
abbrev pub chunk_of : Ring → List ℕ → ℕ
chunk_of r bytes =
    min (length bytes) (min (r.size - available r) (r.size - bit_and r.producer r.mask))

-- The ring that one round leaves, its watermark apart.
abbrev pub after_chunk : Ring → List ℕ → Ring
after_chunk r bytes = record r {
  storage = copy_in r.storage (bit_and r.producer r.mask) (take (chunk_of r bytes) bytes);
  producer = add32 r.producer (chunk_of r bytes);
  producer_reserved_sequence = r.producer;
  producer_reserved_count = 0;
}

module _ {r : Ring} (v : IsValid r) where
  pub offset-lt : bit_and r.producer r.mask < r.size
  offset-lt = rw (bit_and-mask v r.producer) (mod-lt r.producer (size_pos v))

  -- The span offered for writing starts at the producer and stays inside the storage.
  pub write_span_room :
      available r < r.size
      → let n = min (r.size - available r) (r.size - bit_and r.producer r.mask) in
        write_span r ≡ (
          record r { producer_reserved_sequence = r.producer; producer_reserved_count = n },
          record { offset = bit_and r.producer r.mask; count = n },
        )
  unfolding write_span min32
  write_span_room h = ground (arith, offset-lt)

  pub write_span_full :
      available r ≡ r.size → write_span r ≡ (record r { producer_reserved_count = 0 }, no_span)
  unfolding write_span
  write_span_full h = ground arith

module _ {r : Ring} (v : IsValid r) (bytes : List ℕ) where
  pub write_chunk_room :
      available r < r.size
      → write_chunk r bytes ≡ (update_high_watermark (after_chunk r bytes), chunk_of r bytes)
  unfolding write_chunk commit_produced
  write_chunk_room h = rw (write_span_room v h) (ground (arith, offset-lt v))

  pub write_chunk_full :
      available r ≡ r.size → write_chunk r bytes ≡ (record r { producer_reserved_count = 0 }, 0)
  unfolding write_chunk
  write_chunk_full h = rw (write_span_full v h) (ground arith)

  distance-after_chunk :
      available r < r.size → distance (after_chunk r bytes) ≡ available r + chunk_of r bytes
  unfolding available
  distance-after_chunk h = ground arith

  distance-le : available r < r.size → distance r ≤ r.size
  unfolding available
  distance-le h = ground arith

  available-after_chunk :
      available r < r.size → available (after_chunk r bytes) ≡ available r + chunk_of r bytes
  available-after_chunk h =
      available_lem (after_chunk r bytes) (omega (arith, distance-after_chunk h))
      ∙ distance-after_chunk h

  length-chunk : length (take (chunk_of r bytes) bytes) ≡ chunk_of r bytes
  length-chunk = omega (arith, length-take (chunk_of r bytes) bytes)

  contents-after_chunk :
      available r < r.size
      → contents (after_chunk r bytes) ≡ contents r ++ take (chunk_of r bytes) bytes
  contents-after_chunk h =
      ap (λ k. tail_window st r.size (add32 r.producer (chunk_of r bytes)) k)
        (available-after_chunk h ∙ ap (λ k. available r + k) (sym length-chunk))
      ∙ window_cong st r.size
          (add32 r.producer (chunk_of r bytes) + u32_mod - (available r + length xs)) start
          (available r + length xs) (same_place v _ start (omega (arith, length-chunk)))
      ∙ window-copy_in xs r.storage r.size start (available r) (bit_and r.producer r.mask) v.stored
          (omega (arith, length-chunk))
          (bit_and-mask v r.producer
            ∙ same_place v r.producer (start + available r) (omega (arith, available-le v)))
          (omega (arith, length-chunk, offset-lt v))
    where
      xs : List ℕ
      xs = take (chunk_of r bytes) bytes

      st : List ℕ
      st = copy_in r.storage (bit_and r.producer r.mask) xs

      start : ℕ
      start = r.producer + u32_mod - available r

  after_chunk-IsValid : IsValid (after_chunk r bytes)
  after_chunk-IsValid =
      ground (
        arith,
        length-copy_in (take (chunk_of r bytes) bytes) r.storage (bit_and r.producer r.mask),
      )

  lost-after_chunk : available r < r.size → lost (after_chunk r bytes) ≡ lost r
  lost-after_chunk h = omega (
    arith,
    pending_overflow_lem r,
    pending_overflow_lem (after_chunk r bytes),
    distance-after_chunk h,
    distance-le h,
  )

  -- A round with room appends the bytes that it moved.
  pub after_chunk-Appended :
      available r < r.size → Appended r (after_chunk r bytes) (take (chunk_of r bytes) bytes)
  after_chunk-Appended h = record {
    valid = after_chunk-IsValid;
    bytes = contents-after_chunk h;
    size_kept = refl;
    count = available-after_chunk h ∙ ap (λ k. available r + k) (sym length-chunk);
    lost_kept = lost-after_chunk h;
    reach_kept = omega (arith, distance-after_chunk h);
  }

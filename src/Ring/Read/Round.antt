-- ===== src/Ring/Read/Round.antt =====
-- One round of the loop of `ring_buffer_read`.
use native.Mathlib.Nat.{mod-add-mod, mod-eq_of_lt, mod-lt}
use pico_uart.Prelude.{
  length-take, length-drop, sym, refl, ap₂, ap, ◌∙◌, zero, suc, [], ◌∷◌, get_or, [], suc, drop,
  take, ◌-◌, ◌+◌, ◌%◌, ◌++◌, length, arith, add32, min, ◌≡◌, ◌≤◌, ◌<◌,
}
use pico_uart.Ring.{
  List, bit_and, ℕ, Ring, recover_overflow, reserve_readable, read_span, commit_consumed, available,
  min32, no_span,
}
use pico_uart.Ring.Transfer.{read_chunk}
use pico_uart.Ring.Invariant.{IsValid, available-le, size_pos, bit_and-mask}
use pico_uart.Ring.Window.{window_cong, window, window-add}
use pico_uart.Ring.Remove.{Removed}
use pico_uart.Ring.View.{
  same_place, pending_overflow_lem, contents, distance, contents-consumer, available_lem,
}

take-drop-suc :
    (st : List ℕ) (off n : ℕ)
    → off < length st
    → take (suc n) (drop off st) ≡ get_or st off 0 ∷ take n (drop (suc off) st)
take-drop-suc [] off n h = absurd (omega arith)
take-drop-suc (x ∷ xs) zero n h = refl
take-drop-suc (x ∷ xs) (suc off) n h = take-drop-suc xs off n (omega arith)

-- A copy out of the storage that does not go round it is a run of bytes.
slice-window :
    (st : List ℕ) (m s n off : ℕ)
    → length st ≡ m
    → off ≡ s % m
    → off + n ≤ m
    → take n (drop off st) ≡ window st m s n
unfolding window
slice-window st m s zero off h e k = refl
slice-window st m s (suc zero) off h e k =
    take-drop-suc st off 0 (omega arith) ∙ ap (λ i. get_or st i 0 ∷ []) e
slice-window st m s (suc (suc n)) off h e k =
    let next : suc off ≡ (s + 1) % m = omega (
      arith,
      mod-eq_of_lt {n = off + 1} {m = m} (omega arith),
      ap (λ t. (t + 1) % m) e,
      mod-add-mod s m 1,
    ) in
    take-drop-suc st off (suc n) (omega arith)
    ∙ ap₂ ◌∷◌ (ap (λ i. get_or st i 0) e)
        (slice-window st m (s + 1) (suc n) (suc off) h next (omega arith))

-- The bytes that one round moves, from a ring with nothing pending.
abbrev pub readable : Ring → ℕ → ℕ
readable r wanted = min wanted (min (available r) (r.size - bit_and r.consumer r.mask))

abbrev pub taken : Ring → ℕ → List ℕ
taken r wanted = take (readable r wanted) (drop (bit_and r.consumer r.mask) r.storage)

abbrev pub after_read : Ring → ℕ → Ring
after_read r wanted = record r {
  consumer = add32 r.consumer (readable r wanted);
  consumer_reserved_sequence = r.consumer;
  consumer_reserved_count = 0;
}

module _ {r : Ring} (v : IsValid r) where
  pub offset-lt : bit_and r.consumer r.mask < r.size
  offset-lt = rw (bit_and-mask v r.consumer) (mod-lt r.consumer (size_pos v))

  pub reserve_readable_some :
      0 < available r
      → let n = min (available r) (r.size - bit_and r.consumer r.mask) in
        reserve_readable r ≡ (
          record r { consumer_reserved_sequence = r.consumer; consumer_reserved_count = n },
          record { offset = bit_and r.consumer r.mask; count = n },
        )
  unfolding reserve_readable min32
  reserve_readable_some h = ground (arith, offset-lt)

  reserve_readable_none :
      available r ≡ 0 → reserve_readable r ≡ (record r { consumer_reserved_count = 0 }, no_span)
  unfolding reserve_readable
  reserve_readable_none h = ground arith

  pub read_span_recovers : read_span r ≡ reserve_readable (recover_overflow r).0
  unfolding read_span
  read_span_recovers = ground (arith, size_pos v)

-- `r` is any ring that the recovery takes to `R`.
module _ (r : Ring) {R : Ring} (v : IsValid R) (fits : distance R ≤ R.size)
    (recovers : read_span r ≡ reserve_readable R) (wanted : ℕ) where
  pub read_chunk_some :
      0 < available R → read_chunk r wanted ≡ (after_read R wanted, taken R wanted)
  unfolding read_chunk commit_consumed
  read_chunk_some h =
      rw (recovers ∙ reserve_readable_some v h) (ground (arith, offset-lt v, available-le v))

  pub read_chunk_none :
      available R ≡ 0 → read_chunk r wanted ≡ (record R { consumer_reserved_count = 0 }, [])
  unfolding read_chunk commit_consumed
  read_chunk_none h = rw (recovers ∙ reserve_readable_none v h) (ground arith)

module _ {r : Ring} (v : IsValid r) (fits : distance r ≤ r.size) (wanted : ℕ) where
  readable-le : readable r wanted ≤ available r
  readable-le = omega arith

  distance-after_read : distance (after_read r wanted) ≡ available r - readable r wanted
  distance-after_read = omega (arith, available_lem r fits)

  available-after_read : available (after_read r wanted) ≡ available r - readable r wanted
  available-after_read =
      available_lem (after_read r wanted) (omega (arith, distance-after_read, available-le v))
      ∙ distance-after_read

  after_read-IsValid : IsValid (after_read r wanted)
  after_read-IsValid = ground arith

  contents-after_read : contents r ≡ taken r wanted ++ contents (after_read r wanted)
  contents-after_read =
      contents-consumer v fits
      ∙ ap (window r.storage r.size r.consumer)
          (let split : available r ≡ n + (available r - n) = omega arith in split)
      ∙ window-add r.storage r.size r.consumer n (available r - n)
      ∙ ap₂ ◌++◌
          (sym (
            slice-window r.storage r.size r.consumer n (bit_and r.consumer r.mask) v.stored
              (bit_and-mask v r.consumer) (omega (arith, offset-lt v))))
          (window_cong r.storage r.size (r.consumer + n) (add32 r.consumer n) (available r - n)
              (same_place v (r.consumer + n) (add32 r.consumer n) (omega arith))
            ∙ ap (window r.storage r.size (add32 r.consumer n)) (sym available-after_read)
            ∙ sym (
                contents-consumer after_read-IsValid
                  (omega (arith, distance-after_read, available-le v))))
    where
      n : ℕ
      n = readable r wanted

  pub length-taken : length (taken r wanted) ≡ readable r wanted
  length-taken = omega (
    arith,
    length-take (readable r wanted) (drop (bit_and r.consumer r.mask) r.storage),
    length-drop (bit_and r.consumer r.mask) r.storage,
    v.stored,
    offset-lt v,
  )

  pub after_read-Removed : Removed r (after_read r wanted) (taken r wanted)
  after_read-Removed = record {
    valid = after_read-IsValid;
    bytes = contents-after_read;
    size_kept = refl;
    count = omega (arith, length-taken, available-after_read);
    lost_kept = omega (
      arith,
      pending_overflow_lem r,
      pending_overflow_lem (after_read r wanted),
      distance-after_read,
      available-le v,
    );
    reach_kept = omega (arith, distance-after_read, available-le v);
  }

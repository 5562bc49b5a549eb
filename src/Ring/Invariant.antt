-- ===== src/Ring/Invariant.antt =====
-- The representation invariant of `ring_buffer_t`: the geometry that `ring_buffer_init` sets up,
-- and the ranges of the counters.
use native.Mathlib.Nat.{mod-mod_of_dvd, one-le-pow, pow-le-pow_right}
use native.Mathlib.Decide.{dec_le}
use pico_uart.Prelude.{
  ℕ, ◌-◌, ◌%◌, ◌^◌, ◌≤◌, ◌<◌, ◌∣◌, ◌≡◌, ◌∙◌, ap, sym, length, length-set, arith, u32_mod,
  IsPowerOfTwo, two_pow-dvd, bit_and, bit_and_low,
}
use pico_uart.Ring.{
  Ring, available, update_high_watermark, recover_overflow, pending_overflow, reserve_readable,
  read_span, write_span, commit_produced, commit_consumed, commit_snapshot_consumed,
  produce_external, write_byte_overwrite, min32, clear,
}

pub record IsValid (r : Ring) : Type 0 where
  pub power : IsPowerOfTwo r.size
  pub size_fits : r.size < u32_mod
  pub mask_low : r.mask ≡ r.size - 1
  pub stored : length r.storage ≡ r.size
  pub producer_fits : r.producer < u32_mod
  pub consumer_fits : r.consumer < u32_mod
  pub overflow_fits : r.overflow_count < u32_mod
  pub watermark_fits : r.high_watermark ≤ r.size
  pub readable_fits : r.consumer_reserved_count ≤ r.size
  pub writable_fits : r.producer_reserved_count ≤ r.size

pub power-pos : (n : ℕ) → IsPowerOfTwo n → 0 < n
power-pos n (k, e) = omega (arith, one-le-pow k 2 (omega arith))

exponent-lt : (k : ℕ) → 2 ^ k < u32_mod → k ≤ 32
exponent-lt k h = elim (dec_le k 32) [
  | yes le ↦ le
  | no gt ↦
      absurd (omega (arith, pow-le-pow_right {n = 2} (omega arith) {i = 32} {j = k} (omega arith)))
]

power-dvd : (n : ℕ) → IsPowerOfTwo n → n < u32_mod → n ∣ u32_mod
power-dvd n (k, e) h = rw e (two_pow-dvd k 32 (exponent-lt k (rw (← e) h)))

module _ {r : Ring} (v : IsValid r) where
  pub size_pos : 0 < r.size
  size_pos = power-pos r.size v.power

  -- `& mask` is the remainder by the size.
  pub bit_and-mask : (a : ℕ) → bit_and a r.mask ≡ a % r.size
  bit_and-mask a =
      let (k, e) = v.power in
      let low : r.mask ≡ 2 ^ k - 1 = omega arith in
      ap (bit_and a) low ∙ bit_and_low k a ∙ ap (λ t. a % t) (sym e)

  -- A counter's wrap at 2^32 does not move its place in the storage.
  pub wrap-size : (a : ℕ) → a % u32_mod % r.size ≡ a % r.size
  wrap-size a = mod-mod_of_dvd r.size a (power-dvd r.size v.power v.size_fits)

  pub available-le : available r ≤ r.size
  unfolding available
  available-le = ground arith

  pub update_high_watermark-IsValid : IsValid (update_high_watermark r)
  unfolding update_high_watermark available
  update_high_watermark-IsValid = ground arith

  pub recover_overflow-IsValid : IsValid (recover_overflow r).0
  unfolding recover_overflow pending_overflow
  recover_overflow-IsValid = ground arith

  pub write_span-IsValid : IsValid (write_span r).0
  unfolding write_span min32 available
  write_span-IsValid = ground arith

  reserve_readable-IsValid : IsValid (reserve_readable r).0
  unfolding reserve_readable min32 available
  reserve_readable-IsValid = ground arith

  pub commit_produced-IsValid : (count : ℕ) → IsValid (commit_produced r count).0
  unfolding commit_produced update_high_watermark available
  commit_produced-IsValid count = ground arith

  pub commit_consumed-IsValid : (count : ℕ) → IsValid (commit_consumed r count).0
  unfolding commit_consumed
  commit_consumed-IsValid count = ground arith

  pub commit_snapshot_consumed-IsValid : (count : ℕ) → IsValid (commit_snapshot_consumed r count).0
  unfolding commit_snapshot_consumed
  commit_snapshot_consumed-IsValid count = ground arith

  pub produce_external-IsValid : (count : ℕ) → IsValid (produce_external r count)
  unfolding produce_external update_high_watermark available
  produce_external-IsValid count = ground arith

  pub write_byte_overwrite-IsValid : (byte : ℕ) → IsValid (write_byte_overwrite r byte)
  unfolding write_byte_overwrite update_high_watermark available
  write_byte_overwrite-IsValid byte =
      ground (arith, length-set r.storage (bit_and r.producer r.mask) byte)

  pub clear-IsValid : IsValid (clear r)
  unfolding clear
  clear-IsValid = ground arith

pub read_span-IsValid : {r : Ring} → IsValid r → IsValid (read_span r).0
unfolding read_span
read_span-IsValid v = ground (arith, reserve_readable-IsValid (recover_overflow-IsValid v))

-- ===== src/Ring/Commit.antt =====
-- Reservations: which commits the ring accepts, and that each advance of the consumer is either
-- delivered or counted as lost, also where the producer runs on between the two calls.
use native.Mathlib.Nat.{mod-lt}
use pico_uart.Prelude.{
  ◌∙◌, subst, add32, arith, length, u32_max, ◌+◌, min, ◌-◌, max, sub32, false, ◌≤◌, ◌↔◌, true, ◌≡◌,
  u32_mod, ◌<◌, ℕ,
}
use pico_uart.Ring.{
  min32, update_high_watermark, Ring, read_span, commit_consumed, commit_snapshot_consumed,
  commit_produced, produce_external, read_span_is_current, write_span, available, recover_overflow,
  reserve_readable,
}
use pico_uart.Ring.Invariant.{IsValid, available-le, bit_and-mask, size_pos}
use pico_uart.Ring.Recover.{recover_overflow_lem}
use pico_uart.Ring.Read.Round.{read_span_recovers, reserve_readable_some, offset-lt}
use pico_uart.Ring.View.{distance}

-- A commit of a snapshot is accepted exactly for the reservation that is out and a count within
-- it. Of an accepted commit, the consumer's advance is the bytes delivered and those newly
-- counted as lost, and no byte of the storage that is still whole is skipped.
pub commit_snapshot_lem :
    {r : Ring} (count : ℕ)
    → IsValid r
    → r.consumer_reserved_sequence < u32_mod
    → let (r', accepted) = commit_snapshot_consumed r count in
      ((accepted ≡ true)
        ↔ ((r.consumer ≡ r.consumer_reserved_sequence) × (count ≤ r.consumer_reserved_count)))
      × (accepted ≡ false → r' ≡ r)
      × (accepted ≡ true
          → (sub32 r'.consumer r.consumer ≡ max count (distance r - r.size))
            × (r'.overflow_count ≡ min (r.overflow_count + (distance r - r.size - count)) u32_max))
unfolding commit_snapshot_consumed
commit_snapshot_lem {r} count v q = (ground arith, ground arith, ground arith)

-- The same for `ring_buffer_commit_consumed`, which refuses a span that the producer has run over:
-- it accepts exactly the reservation that is out, a count within it and a producer at most one
-- storage ahead. Then the consumer advances by the count and nothing is counted. Of a span that was
-- run over it counts all bytes that were overwritten, and goes to the oldest whole byte.
commit_consumed_lem :
    {r : Ring} (count : ℕ)
    → IsValid r
    → r.consumer_reserved_sequence < u32_mod
    → let (r', accepted) = commit_consumed r count in
      ((accepted ≡ true) ↔ (
        (r.consumer ≡ r.consumer_reserved_sequence)
        × (count ≤ r.consumer_reserved_count)
        × (distance r ≤ r.size)))
      × (accepted ≡ true
          → (sub32 r'.consumer r.consumer ≡ count) × (r'.overflow_count ≡ r.overflow_count))
      × (r.consumer ≡ r.consumer_reserved_sequence
          → count ≤ r.consumer_reserved_count
          → r.size < distance r
          → (distance r' ≡ r.size)
            × (r'.overflow_count ≡ min (r.overflow_count + (distance r - r.size)) u32_max))
unfolding commit_consumed
commit_consumed_lem {r} count v q = (ground arith, ground arith, ground arith)

-- A commit of written bytes is accepted exactly for the reservation that is out and a count within
-- it; the producer then advances by the count, and the next commit of any byte is refused until
-- another span is asked for.
commit_produced_lem :
    {r : Ring} (count : ℕ)
    → IsValid r
    → r.producer_reserved_sequence < u32_mod
    → let (r', accepted) = commit_produced r count in
      ((accepted ≡ true)
        ↔ ((r.producer ≡ r.producer_reserved_sequence) × (count ≤ r.producer_reserved_count)))
      × (accepted ≡ true
          → (r'.producer ≡ add32 r.producer count)
            × ((more : ℕ) → 0 < more → (commit_produced r' more).1 ≡ false))
unfolding commit_produced update_high_watermark
commit_produced_lem {r} count v q = (ground arith, λ h. (ground arith, λ more k. ground arith))

readable_in_storage :
    {r : Ring}
    → IsValid r
    → let span = (reserve_readable r).1 in
      (span.offset + span.count ≤ length r.storage) × (span.count ≤ available r)
unfolding reserve_readable min32
readable_in_storage {r} v =
    ground (arith, bit_and-mask v r.consumer, mod-lt r.consumer (size_pos v), available-le v)

writable_in_storage :
    {r : Ring}
    → IsValid r
    → let span = (write_span r).1 in
      (span.offset + span.count ≤ length r.storage) × (span.count + available r ≤ r.size)
unfolding write_span min32
writable_in_storage {r} v =
    ground (arith, bit_and-mask v r.producer, mod-lt r.producer (size_pos v), available-le v)

-- The two spans stay inside the storage; the readable one holds only bytes that are unread, and
-- the writable one only places that are free.
spans_in_storage :
    {r : Ring}
    → IsValid r
    → let readable = (read_span r).1 in
      let writable = (write_span r).1 in
      (readable.offset + readable.count ≤ length r.storage)
      × (readable.count ≤ available r)
      × (writable.offset + writable.count ≤ length r.storage)
      × (writable.count + available r ≤ r.size)
spans_in_storage {r} v =
    let c = (recover_overflow_lem v).1 in
    let within = readable_in_storage c.valid in
    rw (read_span_recovers v) (
      subst (λ st. (reserve_readable R).1.offset + (reserve_readable R).1.count ≤ length st)
          c.storage_kept within.0,
      omega (arith, within.1, c.count),
      (writable_in_storage v).0,
      (writable_in_storage v).1,
    )
  where
    R : Ring
    R = (recover_overflow r).0

-- A reader that took a span while the producer went on by `d` bytes is told that the span is
-- current exactly when none of its bytes has been overwritten.
read_span_is_current_lem :
    {r : Ring} (d : ℕ)
    → IsValid r
    → d + r.size < u32_mod
    → 0 < available r
    → let r1 = (read_span r).0 in
      (read_span_is_current (produce_external r1 d) ≡ true) ↔ (distance r1 + d ≤ r.size)
unfolding read_span_is_current produce_external update_high_watermark
read_span_is_current_lem {r} d v h some_left =
    let c = (recover_overflow_lem v).1 in
    let R = (recover_overflow r).0 in
    rw (read_span_recovers v ∙ reserve_readable_some c.valid (omega (arith, c.count)))
      (ground (arith, offset-lt c.valid, c.valid, c.fits, c.size_kept, c.count))

-- ===== src/Ring.antt =====
-- The byte ring of firmware/src/uart/ring_buffer/ring_buffer.c: two 32-bit sequence counters that
-- only ever advance, over a storage whose size is a power of two. A function that updates `*ring`
-- returns the new ring beside its result. The storage is the array that `storage` points to, and
-- the null pointer is the empty list. A ring argument stands for a pointer that is not null.
pub mod Transfer
pub mod Invariant
pub mod Init
pub mod Window
pub mod View
pub mod Append
pub mod Write
pub mod Recover
pub mod Remove
pub mod Read
pub mod Overwrite
pub mod Commit
pub mod Queue
mod Tests
use pico_uart.Prelude.{
  ℕ, ◌-◌, Bool, true, false, not, ◌&&◌, ◌||◌, List, [], ◌∷◌, set, ltb, leb, ◌==◌, ◌!=◌,
  if◌then◌else◌, add32, sub32, u32, u32_max, saturating_add, bit_and,
}

-- `ring_buffer_t`
pub record Ring : Type 0 where
  pub storage : List ℕ
  pub size : ℕ
  pub mask : ℕ
  pub producer : ℕ
  pub consumer : ℕ
  pub high_watermark : ℕ
  pub overflow_count : ℕ
  pub producer_reserved_sequence : ℕ
  pub producer_reserved_count : ℕ
  pub consumer_reserved_sequence : ℕ
  pub consumer_reserved_count : ℕ

-- `ring_buffer_span_t`: an offset into the storage in place of the pointer.
pub record Span : Type 0 where
  pub offset : ℕ
  pub count : ℕ

abbrev pub no_span : Span
no_span = record { offset = 0; count = 0 }

abbrev pub is_null : List ℕ → Bool
is_null [] = true
is_null (x ∷ xs) = false

unfoldable pub min32 : ℕ → ℕ → ℕ
min32 left right = if ltb left right then left else right

unfoldable pub size_is_valid : ℕ → Bool
size_is_valid size = size != 0 && leb size u32_max && (bit_and size (size - 1) == 0)

unfoldable pub clear : Ring → Ring
clear r = record r {
  producer = 0;
  consumer = 0;
  producer_reserved_sequence = 0;
  producer_reserved_count = 0;
  consumer_reserved_sequence = 0;
  consumer_reserved_count = 0;
}

-- `ring_buffer_available`
unfoldable pub available : Ring → ℕ
available r =
    let distance = sub32 r.producer r.consumer in if ltb r.size distance then r.size else distance

-- `ring_buffer_pending_overflow_internal`
unfoldable pub pending_overflow : Ring → ℕ
pending_overflow r =
    let distance = sub32 r.producer r.consumer in
    if ltb r.size distance then distance - r.size else 0

unfoldable pub update_high_watermark : Ring → Ring
update_high_watermark r =
    if ltb r.high_watermark (available r) then record r { high_watermark = available r } else r

unfoldable pub init : Ring → List ℕ → ℕ → Ring × Bool
init r storage size = if is_null storage || not (size_is_valid size) then (r, false) else (
  clear (record r {
    storage = storage;
    size = u32 size;
    mask = u32 (size - 1);
    high_watermark = 0;
    overflow_count = 0;
  }),
  true,
)

unfoldable pub occupancy : Ring → ℕ
occupancy r = available r

unfoldable pub free_space : Ring → ℕ
free_space r = sub32 r.size (available r)

unfoldable pub recover_overflow : Ring → Ring × ℕ
recover_overflow r =
    let overwritten = pending_overflow r in
    if overwritten != 0
    then (
      record r {
        consumer = add32 r.consumer overwritten;
        overflow_count = saturating_add r.overflow_count overwritten;
        consumer_reserved_count = 0;
      },
      overwritten,
    )
    else (r, overwritten)

-- `ring_buffer_read_span` after its recovery step
unfoldable pub reserve_readable : Ring → Ring × Span
reserve_readable r =
    let occupied = available r in
    let offset = bit_and r.consumer r.mask in
    let count = min32 occupied (sub32 r.size offset) in
    if occupied == 0 then (record r { consumer_reserved_count = 0 }, no_span) else (
      record r { consumer_reserved_sequence = r.consumer; consumer_reserved_count = count },
      record { offset = offset; count = count },
    )

unfoldable pub read_span : Ring → Ring × Span
read_span r = if is_null r.storage then (r, no_span) else reserve_readable (recover_overflow r).0

unfoldable pub write_span : Ring → Ring × Span
write_span r =
    let free = sub32 r.size (available r) in
    let offset = bit_and r.producer r.mask in
    let count = min32 free (sub32 r.size offset) in
    if is_null r.storage
    then (r, no_span)
    else if free == 0
    then (record r { producer_reserved_count = 0 }, no_span)
    else (
      record r { producer_reserved_sequence = r.producer; producer_reserved_count = count },
      record { offset = offset; count = count },
    )

unfoldable pub read_span_is_current : Ring → Bool
read_span_is_current r =
    if r.consumer != r.consumer_reserved_sequence || r.consumer_reserved_count == 0
    then false
    else leb (sub32 r.producer r.consumer_reserved_sequence) r.size

unfoldable pub commit_produced : Ring → ℕ → Ring × Bool
commit_produced r count =
    if r.producer != r.producer_reserved_sequence || ltb r.producer_reserved_count count
    then (r, false)
    else (
      update_high_watermark
          (record r { producer = add32 r.producer (u32 count); producer_reserved_count = 0 }),
      true,
    )

unfoldable pub commit_consumed : Ring → ℕ → Ring × Bool
commit_consumed r count =
    let safe_consumer = sub32 r.producer r.size in
    if r.consumer != r.consumer_reserved_sequence || ltb r.consumer_reserved_count count
    then (r, false)
    else if ltb r.size (sub32 r.producer r.consumer_reserved_sequence)
    then (
      record r {
        overflow_count = saturating_add r.overflow_count (sub32 safe_consumer r.consumer);
        consumer = safe_consumer;
        consumer_reserved_count = 0;
      },
      false,
    )
    else (record r { consumer = add32 r.consumer (u32 count); consumer_reserved_count = 0 }, true)

unfoldable pub commit_snapshot_consumed : Ring → ℕ → Ring × Bool
commit_snapshot_consumed r count =
    let accepted_consumer = add32 r.consumer_reserved_sequence (u32 count) in
    let safe_consumer = sub32 r.producer r.size in
    let advance_to_safe = sub32 safe_consumer r.consumer_reserved_sequence in
    if r.consumer != r.consumer_reserved_sequence || ltb r.consumer_reserved_count count
    then (r, false)
    else if ltb r.size (sub32 r.producer r.consumer_reserved_sequence) && ltb count advance_to_safe
    then (
      record r {
        overflow_count = saturating_add r.overflow_count (sub32 advance_to_safe (u32 count));
        consumer = safe_consumer;
        consumer_reserved_count = 0;
      },
      true,
    )
    else (record r { consumer = accepted_consumer; consumer_reserved_count = 0 }, true)

unfoldable pub produce_external : Ring → ℕ → Ring
produce_external r count =
    if count == 0
    then r
    else update_high_watermark
        (record r { producer = add32 r.producer count; producer_reserved_count = 0 })

unfoldable pub producer_index : Ring → ℕ
producer_index r = if r.size == 0 then 0 else bit_and r.producer r.mask

unfoldable pub write_byte_overwrite : Ring → ℕ → Ring
write_byte_overwrite r byte =
    if is_null r.storage
    then r
    else update_high_watermark (record r {
      storage = set r.storage (bit_and r.producer r.mask) byte;
      producer = add32 r.producer 1;
      producer_reserved_count = 0;
    })

-- The three statistics.
unfoldable pub high_watermark_of : Ring → ℕ
high_watermark_of r = r.high_watermark

unfoldable pub overflow_count_of : Ring → ℕ
overflow_count_of r = r.overflow_count

unfoldable pub pending_overflow_of : Ring → ℕ
pending_overflow_of r = pending_overflow r

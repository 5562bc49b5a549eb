-- ===== src/Ring/Transfer.antt =====
-- The copying calls of firmware/src/uart/ring_buffer/ring_buffer.c: `ring_buffer_write`,
-- `ring_buffer_read` and the self-check. Each `while` loop takes the rounds left; every round moves
-- at least one byte, so as many rounds as bytes are enough (`Ring/Write`, `Ring/Read`).
use pico_uart.Prelude.{
  ℕ, zero, suc, ◌+◌, ◌-◌, Bool, true, not, ◌&&◌, List, [], ◌∷◌, ◌++◌, length, set, take, drop, ltb,
  ◌==◌, if◌then◌else◌, get_or, u32_max, ◌≡◌, refl,
}
use pico_uart.Ring.{
  Ring, write_span, commit_produced, read_span, commit_consumed, init, write_byte_overwrite,
  pending_overflow, recover_overflow, clear, size_is_valid, min32, available, reserve_readable,
  update_high_watermark,
}

-- `memcpy` into the storage from `offset` on
unfoldable pub copy_in : List ℕ → ℕ → List ℕ → List ℕ
copy_in storage offset [] = storage
copy_in storage offset (x ∷ xs) = copy_in (set storage offset x) (offset + 1) xs

-- One round of the loop of `ring_buffer_write`: the bytes written, and 0 where the loop breaks.
unfoldable pub write_chunk : Ring → List ℕ → Ring × ℕ
write_chunk r bytes =
    let (r1, span) = write_span r in
    let chunk = if ltb (length bytes) span.count then length bytes else span.count in
    let r2 = record r1 { storage = copy_in r1.storage span.offset (take chunk bytes) } in
    let (r3, committed) = commit_produced r2 chunk in
    if span.count == 0 then (r1, 0) else if committed then (r3, chunk) else (r3, 0)

-- The rounds left, the bytes left and the bytes written so far.
unfoldable pub write_loop : ℕ → Ring → List ℕ → ℕ → Ring × ℕ
write_loop zero r bytes total = (r, total)
write_loop (suc rounds) r bytes total =
    let (r', n) = write_chunk r bytes in
    let rest = write_loop rounds r' (drop n bytes) (total + n) in
    if length bytes == 0 then (r, total) else if n == 0 then (r', total) else rest

unfoldable pub write : Ring → List ℕ → Ring × ℕ
write r bytes = write_loop (length bytes) r bytes 0

-- One round of the loop of `ring_buffer_read`: the bytes copied out, none where the loop breaks.
unfoldable pub read_chunk : Ring → ℕ → Ring × List ℕ
read_chunk r wanted =
    let (r1, span) = read_span r in
    let chunk = if ltb wanted span.count then wanted else span.count in
    let (r2, committed) = commit_consumed r1 chunk in
    if span.count == 0
    then (r1, [])
    else if committed
    then (r2, take chunk (drop span.offset r1.storage))
    else (r2, [])

unfoldable pub read_loop : ℕ → Ring → ℕ → List ℕ → Ring × List ℕ
read_loop zero r wanted out = (r, out)
read_loop (suc rounds) r wanted out =
    let (r', bytes) = read_chunk r wanted in
    let rest = read_loop rounds r' (wanted - length bytes) (out ++ bytes) in
    if wanted == 0 then (r, out) else if length bytes == 0 then (r', out) else rest

-- The bytes copied to `data`; the C function returns their number.
unfoldable pub read : Ring → ℕ → Ring × List ℕ
read r wanted = read_loop wanted r wanted []

-- `ring_buffer_self_check`, one function for each of its four rounds, over the local array
-- `storage`, whose first content is not set by the code. A round hands the array on.
abbrev blank : Ring
blank = record {
  storage = [];
  size = 0;
  mask = 0;
  producer = 0;
  consumer = 0;
  high_watermark = 0;
  overflow_count = 0;
  producer_reserved_sequence = 0;
  producer_reserved_count = 0;
  consumer_reserved_sequence = 0;
  consumer_reserved_count = 0;
}

abbrev input : List ℕ
input = 0 ∷ 1 ∷ 2 ∷ 3 ∷ 4 ∷ 5 ∷ 6 ∷ 7 ∷ []

-- `output[index] == index + 1` for every index from the given one on
abbrev counts_from : ℕ → List ℕ → Bool
counts_from n [] = true
counts_from n (x ∷ xs) = x == n && counts_from (n + 1) xs

self_check_overwrite : List ℕ → Bool × List ℕ
self_check_overwrite storage =
    let (r0, ready) = init blank storage 8 in
    let (r1, n) = write r0 input in
    let r2 = write_byte_overwrite r1 8 in
    let (r3, lost) = recover_overflow r2 in
    let (r4, output) = read r3 8 in
    (
      ready
          && n == 8
          && pending_overflow r2 == 1
          && lost == 1
          && r3.overflow_count == 1
          && pending_overflow r3 == 0
          && length output == 8
          && counts_from 1 output,
      r4.storage,
    )

self_check_produced : List ℕ → Bool × List ℕ
self_check_produced storage =
    let (r0, ready) = init blank storage 8 in
    let (r1, n) = write r0 (take 6 input) in
    let (r2, output) = read r1 4 in
    let (r3, span) = write_span r2 in
    (
      ready && n == 6 && length output == 4 && span.count == 2 && not (commit_produced r3 3).1,
      r3.storage,
    )

self_check_consumed : List ℕ → Bool × List ℕ
self_check_consumed storage =
    let (r0, ready) = init blank storage 8 in
    let (r1, n) = write r0 (take 4 input) in
    let (r2, span) = read_span r1 in
    let (r3, committed) = commit_consumed r2 5 in
    (ready && n == 4 && span.count == 4 && not committed && (commit_consumed r3 4).1, r3.storage)

self_check_wrap : List ℕ → Bool
self_check_wrap storage =
    let (r0, ready) = init blank storage 8 in
    let r1 = write_byte_overwrite (record r0 { producer = u32_max; consumer = u32_max }) 0x5a in
    let output = (read r1 1).1 in ready && length output == 1 && get_or output 0 0 == 0x5a

pub self_check : List ℕ → Bool
unfolding self_check_overwrite self_check_produced self_check_consumed self_check_wrap
self_check storage =
    let (first, storage1) = self_check_overwrite storage in
    let (second, storage2) = self_check_produced storage1 in
    let (third, storage3) = self_check_consumed storage2 in
    first && second && third && self_check_wrap storage3

-- The firmware's own self-check passes, whatever bytes its local array holds at first.
self_check_passes : (a b c d e f g h : ℕ) → self_check (a ∷ b ∷ c ∷ d ∷ e ∷ f ∷ g ∷ h ∷ []) ≡ true
unfolding self_check write read write_loop read_loop write_chunk read_chunk copy_in init clear
    size_is_valid write_span read_span min32 available pending_overflow recover_overflow
    reserve_readable commit_produced commit_consumed update_high_watermark write_byte_overwrite
self_check_passes a b c d e f g h = refl

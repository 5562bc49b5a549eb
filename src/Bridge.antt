-- ===== src/Bridge.antt =====
-- Between the rings and USB: firmware/src/uart/bridge.c. The callbacks, the sequence counter of the
-- statistics and what the producer does while a snapshot is copied are parameters on the state of
-- the world outside the two functions. Their loops are one loop over a round, with the rounds left
-- as fuel; `Rounds` shows how many are enough.
pub mod Rounds
pub mod Fill
mod Tests
use pico_uart.Prelude.{
  bit_and, zero, ◌-◌, not, ◌&&◌, false, ◌||◌, drop, length, ◌==◌, ◌+◌, ◌!=◌, ltb, Bool, take,
  if◌then◌else◌, suc, ℕ, List,
}
use pico_uart.Ring.{
  Span, Ring, read_span, write_span, recover_overflow, read_span_is_current,
  commit_snapshot_consumed, commit_produced,
}
use pico_uart.Ring.Transfer.{copy_in}

-- What a round does: the bytes it moved, and whether the loop goes on.
pub record Moved {ℓ} (X : Type ℓ) : Type ℓ where
  pub state : X
  pub moved : ℕ
  pub goes_on : Bool

-- `while ((capacity == 0u) || (total < capacity))`: the rounds left, and the total so far.
unfoldable pub bridge_loop {ℓ} : {X : Type ℓ} → ℕ → (ℕ → X → Moved X) → ℕ → ℕ → X → X × ℕ
bridge_loop zero round capacity total x = (x, total)
bridge_loop (suc rounds) round capacity total x =
    let m = round total x in
    let rest = bridge_loop rounds round capacity (total + m.moved) m.state in
    if capacity == 0 || ltb total capacity
    then (if m.goes_on then rest else (m.state, total + m.moved))
    else (x, total)

-- The bytes of a span that the capacity has room for.
unfoldable pub offered_bytes : ℕ → ℕ → ℕ → ℕ
offered_bytes capacity total count =
    if capacity != 0 && ltb (capacity - total) count then capacity - total else count

module _ {ℓ} {S : Type ℓ} (writer : S → List ℕ → S × ℕ) (snapshot_is_current : S → ℕ → Bool)
    (stats_sequence : S → ℕ) (during_copy : S → Ring → S × Ring) where
  unfoldable pub drain_round : ℕ → ℕ → ℕ → Ring × S → Moved (Ring × S)
  drain_round capacity snapshot_capacity total (r, s) =
      let (r1, span) = read_span r in
      let wanted = offered_bytes capacity total span.count in
      let offered = if ltb snapshot_capacity wanted then snapshot_capacity else wanted in
      let initial_stats = stats_sequence s in
      let snapshot = take offered (drop span.offset r1.storage) in
      let (s1, r2) = during_copy s r1 in
      let current =
        read_span_is_current r2
        && snapshot_is_current s1 r1.consumer_reserved_sequence
        && stats_sequence s1 == initial_stats in
      let (s2, written) = writer s1 snapshot in
      let (r3, committed) = commit_snapshot_consumed r2 written in
      if span.count == 0
      then record { state = (r1, s); moved = 0; goes_on = false }
      else if bit_and initial_stats 1 != 0
      then record { state = (r1, s); moved = 0; goes_on = false }
      else if not current
      then record { state = ((recover_overflow r2).0, s1); moved = 0; goes_on = false }
      else if written == 0
      then record { state = (r2, s2); moved = 0; goes_on = false }
      else if ltb offered written
      then record { state = (r2, s2); moved = 0; goes_on = false }
      else if not committed
      then record { state = (r3, s2); moved = 0; goes_on = false }
      else record { state = (r3, s2); moved = written; goes_on = not (ltb written offered) }

  -- `rounds` bounds the loop; the ring, the world and the bytes delivered.
  unfoldable pub drain_rx : ℕ → ℕ → ℕ → Ring × S → (Ring × S) × ℕ
  drain_rx rounds capacity snapshot_capacity (r, s) =
      if snapshot_capacity == 0
      then ((r, s), 0)
      else bridge_loop rounds (drain_round capacity snapshot_capacity) capacity 0
          ((recover_overflow r).0, s)

unfoldable pub recover_rx : Ring → Ring × ℕ
recover_rx r = recover_overflow r

-- A round of `uart_bridge_fill_tx` from the reader's return on: the bytes stand at the span.
unfoldable pub fill_taken {ℓ} : {S : Type ℓ} → Ring → Span → ℕ → S → List ℕ → Moved (Ring × S)
fill_taken r span offered s bytes =
    let r2 = record r { storage = copy_in r.storage span.offset (take offered bytes) } in
    let (r3, committed) = commit_produced r2 (length bytes) in
    if length bytes == 0
    then record { state = (r2, s); moved = 0; goes_on = false }
    else if ltb offered (length bytes)
    then record { state = (r2, s); moved = 0; goes_on = false }
    else if not committed
    then record { state = (r3, s); moved = 0; goes_on = false }
    else record {
      state = (r3, s);
      moved = length bytes;
      goes_on = not (ltb (length bytes) offered);
    }

-- The reader puts its bytes at the span; it returns their number.
module _ {ℓ} {S : Type ℓ} (reader : S → ℕ → S × List ℕ) where
  unfoldable pub fill_round : ℕ → ℕ → Ring × S → Moved (Ring × S)
  fill_round capacity total (r, s) =
      let (r1, span) = write_span r in
      let offered = offered_bytes capacity total span.count in
      let (s1, bytes) = reader s offered in
      if span.count == 0
      then record { state = (r1, s); moved = 0; goes_on = false }
      else fill_taken r1 span offered s1 bytes

  unfoldable pub fill_tx : ℕ → ℕ → Ring × S → (Ring × S) × ℕ
  fill_tx rounds capacity x = bridge_loop rounds (fill_round capacity) capacity 0 x

-- ===== src/Bridge/Rounds.antt =====
-- The loops of the bridge end, within the capacity.
use pico_uart.Prelude.{
  inr, ltb→lt, zero, ◌||◌, inl, ◌==◌, ltb, false, Bool-cases, suc, true, ◌+◌, ◌≤◌, Bool, ◌<◌, List,
  ℕ, refl, ◌≡◌, arith,
}
use pico_uart.Ring.{Ring}
use pico_uart.Bridge.{
  fill_taken, recover_overflow, offered_bytes, Moved, bridge_loop, drain_round, drain_rx,
  fill_round, fill_tx,
}

-- A round that goes on has moved a byte, and no round moves more than the capacity has room for.
abbrev pub IsBounded {ℓ} : {X : Type ℓ} → ℕ → (ℕ → X → Moved X) → Type ℓ
IsBounded {X} capacity round =
    (total : ℕ) (x : X)
    → total < capacity
    → (total + (round total x).moved ≤ capacity)
      × ((round total x).goes_on ≡ true → 0 < (round total x).moved)

module _ {ℓ} {X : Type ℓ} (round : ℕ → X → Moved X) (capacity : ℕ) where
  loop_full :
      (rounds total : ℕ) (x : X)
      → 0 < capacity
      → capacity ≤ total
      → bridge_loop rounds round capacity total x ≡ (x, total)
  unfolding bridge_loop
  loop_full zero total x p h = refl
  loop_full (suc rounds) total x p h =
      let full : (capacity == 0 || ltb total capacity) ≡ false = ground arith in rw full refl

  loop_next :
      (rounds total : ℕ) (x : X)
      → total < capacity
      → (round total x).goes_on ≡ true
      → bridge_loop (suc rounds) round capacity total x
        ≡ bridge_loop rounds round capacity (total + (round total x).moved) (round total x).state
  unfolding bridge_loop
  loop_next rounds total x h g =
      let room : (capacity == 0 || ltb total capacity) ≡ true = ground arith in rw room (rw g refl)

  loop_last :
      (rounds total : ℕ) (x : X)
      → total < capacity
      → (round total x).goes_on ≡ false
      → bridge_loop (suc rounds) round capacity total x
        ≡ ((round total x).state, total + (round total x).moved)
  unfolding bridge_loop
  loop_last rounds total x h g =
      let room : (capacity == 0 || ltb total capacity) ≡ true = ground arith in rw room (rw g refl)

  loop_bounded :
      (rounds more total : ℕ) (x : X)
      → IsBounded capacity round
      → 0 < capacity
      → total ≤ capacity
      → capacity ≤ total + rounds
      → ((bridge_loop rounds round capacity total x).1 ≤ capacity)
        × (bridge_loop (rounds + more) round capacity total x
            ≡ bridge_loop rounds round capacity total x)
  loop_bounded zero more total x b p h e =
      rw (loop_full zero total x p (omega arith)) (h, loop_full (0 + more) total x p (omega arith))
  loop_bounded (suc rounds) more total x b p h e =
      let next : suc rounds + more ≡ suc (rounds + more) = omega arith in
      rw next (elim (Bool-cases (ltb total capacity)) [
        | inl room ↦
            let less : total < capacity = ltb→lt total capacity room in
            let (fits, moves) = b total x less in
            elim (Bool-cases (round total x).goes_on) [
              | inl g ↦
                  let some_moved = moves g in
                  rw (loop_next rounds total x less g) (
                    rw (loop_next (rounds + more) total x less g) (
                      loop_bounded rounds more (total + (round total x).moved) (round total x).state
                        b p fits (omega arith)))
              | inr g ↦
                  rw (loop_last rounds total x less g)
                    (rw (loop_last (rounds + more) total x less g) (fits, refl))
            ]
        | inr full ↦
            let over : capacity ≤ total = ground arith in
            rw (loop_full (suc rounds) total x p over)
              (rw (loop_full (suc (rounds + more)) total x p over) (h, refl))
      ])

drain-IsBounded :
    {S : Type 0} (writer : S → List ℕ → S × ℕ) (snapshot_is_current : S → ℕ → Bool)
    (stats_sequence : S → ℕ) (during_copy : S → Ring → S × Ring) (capacity snapshot_capacity : ℕ)
    → 0 < capacity
    → IsBounded capacity (
        drain_round writer snapshot_is_current stats_sequence during_copy capacity
          snapshot_capacity)
unfolding drain_round offered_bytes
drain-IsBounded writer snapshot_is_current stats_sequence during_copy capacity snapshot_capacity p
      total (r, s) h =
    ground arith

fill-IsBounded :
    {S : Type 0} (reader : S → ℕ → S × List ℕ) (capacity : ℕ)
    → 0 < capacity
    → IsBounded capacity (fill_round reader capacity)
unfolding fill_round fill_taken offered_bytes
fill-IsBounded reader capacity p total (r, s) h = ground arith

-- With a capacity, as many rounds as its bytes are enough: any more give the same result. The loop
-- then delivers at most that many bytes, whatever the callback does and whatever the producer does
-- during the copies.
pub drain_rx_lem :
    {S : Type 0} (writer : S → List ℕ → S × ℕ) (snapshot_is_current : S → ℕ → Bool)
    (stats_sequence : S → ℕ) (during_copy : S → Ring → S × Ring)
    (capacity snapshot_capacity more : ℕ) (r : Ring) (s : S)
    → 0 < capacity
    → let drain = λ (rounds : ℕ).
      drain_rx writer snapshot_is_current stats_sequence during_copy rounds capacity
        snapshot_capacity
        (r, s) in
      ((drain capacity).1 ≤ capacity) × (drain (capacity + more) ≡ drain capacity)
unfolding drain_rx
drain_rx_lem writer snapshot_is_current stats_sequence during_copy capacity snapshot_capacity more r
      s p =
    elim (Bool-cases (snapshot_capacity == 0)) [
      | inl none_fit ↦ rw none_fit (omega arith, refl)
      | inr some_fit ↦ rw some_fit (
          loop_bounded _ capacity capacity more 0 ((recover_overflow r).0, s)
            (drain-IsBounded writer snapshot_is_current stats_sequence during_copy capacity
              snapshot_capacity p)
            p (omega arith) (omega arith))
    ]

-- The same for filling the transmit ring: as many rounds as the capacity has bytes are enough, and
-- at most that many bytes are taken into the ring, whatever the reader does.
pub fill_tx_lem :
    {S : Type 0} (reader : S → ℕ → S × List ℕ) (capacity more : ℕ) (x : Ring × S)
    → 0 < capacity
    → ((fill_tx reader capacity capacity x).1 ≤ capacity)
      × (fill_tx reader (capacity + more) capacity x ≡ fill_tx reader capacity capacity x)
unfolding fill_tx
fill_tx_lem reader capacity more x p =
    loop_bounded (fill_round reader capacity) capacity capacity more 0 x
      (fill-IsBounded reader capacity p) p (omega arith) (omega arith)

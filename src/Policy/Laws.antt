-- ===== src/Policy/Laws.antt =====
-- What the decisions promise.
use native.Mathlib.Nat.{mod-le, div-mul-le_self, mul-le-mul_right, le_trans}
use pico_uart.Prelude.{
  refl, ◌↔◌, inr, ◌%◌, inl, [], true, false, arith, ◌≡◌, ◌*◌, ◌⊎◌, ◌/◌, ◌∷◌, ◌≤◌, List, Bool, ◌<◌,
  ℕ,
}
use pico_uart.Policy.{
  stall_wait, stall_clear, stall_idle, tx_transfer_bytes, rts_should_assert, txstall_sample,
}

module _ (occupancy max_transfer baud_rate bits_per_frame budget_ms : ℕ) where
  -- The whole frames that the budget has room for, cut at 64 and 32 bits as the code does.
  abbrev frames : ℕ
  frames = baud_rate * budget_ms % 0x1_0000_0000_0000_0000 / (1000 * bits_per_frame % 0x1_0000_0000)

  launch_bound :
      let n = tx_transfer_bytes occupancy max_transfer baud_rate bits_per_frame budget_ms in
      (n ≤ 1) ⊎ (n ≤ frames)
  unfolding tx_transfer_bytes
  launch_bound = ground arith

  frames_fit : bits_per_frame ≤ 4000000 → frames * (1000 * bits_per_frame) ≤ baud_rate * budget_ms
  frames_fit f =
      let exact : 1000 * bits_per_frame % 0x1_0000_0000 ≡ 1000 * bits_per_frame = omega arith in
      let bits = baud_rate * budget_ms % 0x1_0000_0000_0000_0000 in
      rw exact (
        le_trans (div-mul-le_self bits (1000 * bits_per_frame))
          (mod-le (baud_rate * budget_ms) 0x1_0000_0000_0000_0000))

-- A launch never takes more than is queued or more than the configured maximum; where there is
-- something to send and every setting is positive it takes a byte at least; and it stays within the
-- wire-time budget unless it is that one frame.
pub tx_transfer_bytes_lem :
    (occupancy max_transfer baud_rate bits_per_frame budget_ms : ℕ)
    → bits_per_frame ≤ 4000000
    → let n = tx_transfer_bytes occupancy max_transfer baud_rate bits_per_frame budget_ms in
      (n ≤ occupancy)
      × (n ≤ max_transfer)
      × (0 < occupancy
          → 0 < max_transfer
          → 0 < baud_rate
          → 0 < bits_per_frame
          → 0 < budget_ms
          → 0 < n)
      × ((n ≤ 1) ⊎ (n * (1000 * bits_per_frame) ≤ baud_rate * budget_ms))
unfolding tx_transfer_bytes
tx_transfer_bytes_lem occupancy max_transfer baud_rate bits_per_frame budget_ms f = (
  ground arith,
  ground arith,
  λ o m b k g. ground arith,
  elim (launch_bound occupancy max_transfer baud_rate bits_per_frame budget_ms) [
    | inl one ↦ inl one
    | inr some_frames ↦ inr (
        le_trans (mul-le-mul_right (1000 * bits_per_frame) some_frames)
          (frames_fit occupancy max_transfer baud_rate bits_per_frame budget_ms f))
  ],
)

-- RTS hysteresis over a sequence of occupancies.
unfoldable pub rts_run : ℕ → Bool → List ℕ → Bool
rts_run ring_size asserted [] = asserted
rts_run ring_size asserted (n ∷ ns) = rts_run ring_size (rts_should_assert asserted n ring_size) ns

abbrev pub All {ℓ} : (ℕ → Type ℓ) → List ℕ → Type ℓ
All P [] = Unit
All P (x ∷ xs) = P x × All P xs

rts_between :
    (ring_size : ℕ) (asserted : Bool) (n : ℕ)
    → ring_size ≤ 0x4000_0000
    → ring_size / 2 < n
    → n < ring_size * 3 / 4
    → rts_should_assert asserted n ring_size ≡ asserted
unfolding rts_should_assert
rts_between ring_size asserted n h a b = ground arith

rts_keeps :
    (ring_size : ℕ) (asserted : Bool) (ns : List ℕ)
    → ring_size ≤ 0x4000_0000
    → All (λ n. (ring_size / 2 < n) × (n < ring_size * 3 / 4)) ns
    → rts_run ring_size asserted ns ≡ asserted
unfolding rts_run
rts_keeps ring_size asserted [] h a = refl
rts_keeps ring_size asserted (n ∷ ns) h a =
    rw (rts_between ring_size asserted n h a.0.0 a.0.1) (rts_keeps ring_size asserted ns h a.1)

-- Between the two watermarks the line keeps its level, however often it is looked at; at or above
-- three quarters it is dropped, and at or below a half it is raised.
rts_hysteresis :
    (ring_size : ℕ) (asserted : Bool) (ns : List ℕ)
    → ring_size ≤ 0x4000_0000
    → (All (λ n. (ring_size / 2 < n) × (n < ring_size * 3 / 4)) ns
        → rts_run ring_size asserted ns ≡ asserted)
      × ((n : ℕ)
          → ring_size * 3 / 4 ≤ n
          → ring_size / 2 < n
          → rts_should_assert asserted n ring_size ≡ false)
      × ((n : ℕ)
          → n ≤ ring_size / 2
          → n < ring_size * 3 / 4
          → rts_should_assert asserted n ring_size ≡ true)
unfolding rts_should_assert
rts_hysteresis ring_size asserted ns h =
    (rts_keeps ring_size asserted ns h, λ n a b. ground arith, λ n a b. ground arith)

-- One sample of the probe reports an idle transmitter just when it was waiting and the flag is
-- set again, clears the flag just when it was not waiting and the flag is set, and waits
-- afterwards just when it cleared the flag or was waiting and goes on waiting.
txstall_lem :
    (waiting stalled : Bool)
    → let (waiting', action) = txstall_sample waiting stalled in
      ((action ≡ stall_idle) ↔ ((waiting ≡ true) × (stalled ≡ true)))
      × ((action ≡ stall_clear) ↔ ((waiting ≡ false) × (stalled ≡ true)))
      × ((waiting' ≡ true) ↔ ((action ≡ stall_clear) ⊎ ((waiting ≡ true) × (action ≡ stall_wait))))
unfolding txstall_sample
txstall_lem true true = (ground arith, ground arith, ground arith)
txstall_lem true false = (ground arith, ground arith, ground arith)
txstall_lem false true = (ground arith, ground arith, ground arith)
txstall_lem false false = (ground arith, ground arith, ground arith)

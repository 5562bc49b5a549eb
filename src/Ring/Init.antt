-- ===== src/Ring/Init.antt =====
-- What `ring_buffer_init` accepts, and the ring that it sets up.
use pico_uart.Prelude.{
  ℕ, ◌<◌, ◌≡◌, ◌≢◌, ◌↔◌, refl, true, false, List, [], ◌∷◌, length, arith, u32_mod, IsPowerOfTwo,
  IsPowerOfTwo-of_bit_and, bit_and_of_IsPowerOfTwo,
}
use pico_uart.Ring.{Ring, init, clear, size_is_valid, available}
use pico_uart.Ring.Invariant.{IsValid, power-pos}

-- The bit test of the code accepts exactly the powers of two that fit 32 bits.
pub size_is_valid_iff : (n : ℕ) → (size_is_valid n ≡ true) ↔ (IsPowerOfTwo n × (n < u32_mod))
unfolding size_is_valid
size_is_valid_iff n = (accept, refuse)
  where
    accept : size_is_valid n ≡ true → IsPowerOfTwo n × (n < u32_mod)
    accept h = (IsPowerOfTwo-of_bit_and n (ground arith) (ground arith), ground arith)

    refuse : IsPowerOfTwo n × (n < u32_mod) → size_is_valid n ≡ true
    refuse (p, lt) = ground (arith, bit_and_of_IsPowerOfTwo n p, power-pos n p)

-- `ring_buffer_init` succeeds exactly for a storage that is not null and a size that is a power
-- of two below 2^32.
init_iff :
    (r : Ring) (storage : List ℕ) (n : ℕ)
    → ((init r storage n).1 ≡ true) ↔ ((storage ≢ []) × IsPowerOfTwo n × (n < u32_mod))
unfolding init
init_iff r [] n = (λ h. cc, λ h. absurd (h.0 refl))
init_iff r (x ∷ xs) n = (
  λ h. let (p, lt) = (size_is_valid_iff n).0 (ground arith) in ((λ e. cc), p, lt),
  λ h. ground (arith, (size_is_valid_iff n).1 (h.1, h.2)),
)

-- On success the ring is valid and empty over that storage, with no count left over; on failure
-- it is as it was.
init_lem :
    (r : Ring) (storage : List ℕ) (n : ℕ)
    → length storage ≡ n
    → let (r', accepted) = init r storage n in
      (accepted ≡ true → IsValid r' × (r'.size ≡ n) × (available r' ≡ 0) × (r'.overflow_count ≡ 0))
      × (accepted ≡ false → r' ≡ r)
unfolding init clear available
init_lem r storage n h = (
  λ e. let (present, p, lt) = (init_iff r storage n).0 e in ground (arith, power-pos n p),
  λ e. ground arith,
)

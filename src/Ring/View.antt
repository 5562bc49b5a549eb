-- ===== src/Ring/View.antt =====
-- What a ring holds: the newest unread bytes, oldest first, as many as the storage has kept. The
-- operations are read through this view in `Ring/Write`, `Ring/Read` and `Ring/Overwrite`.
use pico_uart.Prelude.{
  ℕ, ◌+◌, ◌-◌, ◌%◌, ◌≤◌, ◌≡◌, ◌∙◌, sym, ap, List, length, max, min, arith, u32_max, u32_mod, sub32,
}
use pico_uart.Ring.{Ring, available, free_space, pending_overflow, update_high_watermark}
use pico_uart.Ring.Invariant.{IsValid, wrap-size, available-le}
use pico_uart.Ring.Window.{window, length-window, window_cong}

-- `n` bytes that end where the producer stands
abbrev pub tail_window : List ℕ → ℕ → ℕ → ℕ → List ℕ
tail_window st m p n = window st m (p + u32_mod - n) n

abbrev pub contents : Ring → List ℕ
contents r = tail_window r.storage r.size r.producer (available r)

pub length-contents : (r : Ring) → length (contents r) ≡ available r
length-contents r =
    length-window r.storage r.size (r.producer + u32_mod - available r) (available r)

-- Unread bytes and bytes that were overwritten, by the counters.
abbrev pub distance : Ring → ℕ
distance r = sub32 r.producer r.consumer

pub available_lem : (r : Ring) → distance r ≤ r.size → available r ≡ distance r
unfolding available
available_lem r h = ground arith

-- Without an overrun the bytes start at the consumer.
pub contents-consumer :
    {r : Ring}
    → IsValid r
    → distance r ≤ r.size
    → contents r ≡ window r.storage r.size r.consumer (available r)
contents-consumer {r} v h =
    window_cong r.storage r.size (r.producer + u32_mod - available r) r.consumer (available r) (
      sym (wrap-size v (r.producer + u32_mod - available r))
      ∙ ap (λ t. t % r.size) (omega (arith, available_lem r h)))

pub free_space_lem : {r : Ring} → IsValid r → free_space r ≡ r.size - available r
unfolding free_space
free_space_lem v = omega (arith, available-le v)

-- The watermark is a diagnostic: it is the largest number of unread bytes seen, and nothing else
-- looks at it.
pub update_high_watermark_lem :
    (r : Ring)
    → update_high_watermark r ≡ record r { high_watermark = max r.high_watermark (available r) }
unfolding update_high_watermark
update_high_watermark_lem r = ground arith

-- Bytes that were overwritten before they were read: counted already, or still to be counted.
abbrev pub lost : Ring → ℕ
lost r = min (r.overflow_count + pending_overflow r) u32_max

-- How far the counters may stand apart.
abbrev pub reach : Ring → ℕ
reach r = max (distance r) r.size

pub pending_overflow_lem : (r : Ring) → pending_overflow r ≡ distance r - r.size
unfolding pending_overflow
pending_overflow_lem r = ground arith

-- Two places that differ by a wrap of the counters are one.
pub same_place :
    {r : Ring} → IsValid r → (a b : ℕ) → a % u32_mod ≡ b % u32_mod → a % r.size ≡ b % r.size
same_place {r} v a b h = sym (wrap-size v a) ∙ ap (λ t. t % r.size) h ∙ wrap-size v b

-- The view reads the storage, its size, the producer and the number of unread bytes.
pub contents_cong :
    (r r' : Ring)
    → r'.storage ≡ r.storage
    → r'.size ≡ r.size
    → r'.producer ≡ r.producer
    → available r' ≡ available r
    → contents r' ≡ contents r
contents_cong r r' st sz p a = cc

-- ===== src/Ring/Remove.antt =====
-- A ring after bytes have been taken from its front.
use pico_uart.Prelude.{
  length-append, append_assoc, refl, ap, ◌+◌, length, ◌∙◌, ◌++◌, ◌≤◌, ◌≡◌, sym, arith,
}
use pico_uart.Ring.{ℕ, List, [], pending_overflow, Ring, available}
use pico_uart.Ring.Invariant.{IsValid}
use pico_uart.Ring.View.{contents, lost, reach}
use pico_uart.Ring.Recover.{Recovered}

-- `r'` is `r` with the bytes `xs` taken from its front.
pub record Removed (r r' : Ring) (xs : List ℕ) : Type 0 where
  pub valid : IsValid r'
  pub bytes : contents r ≡ xs ++ contents r'
  pub size_kept : r'.size ≡ r.size
  pub count : available r ≡ length xs + available r'
  pub lost_kept : lost r' ≡ lost r
  pub reach_kept : reach r' ≤ reach r

pub unchanged-Removed : {r : Ring} → IsValid r → Removed r r []
unchanged-Removed {r} v = record {
  valid = v;
  bytes = refl;
  size_kept = refl;
  count = omega arith;
  lost_kept = refl;
  reach_kept = omega arith;
}

-- A recovery removes nothing that the ring holds.
pub Recovered-Removed : {r r' : Ring} → Recovered r r' → Removed r r' []
Recovered-Removed {r} {r'} c = record {
  valid = c.valid;
  bytes = sym c.bytes;
  size_kept = c.size_kept;
  count = omega (arith, c.count);
  lost_kept = c.lost_kept;
  reach_kept = omega (arith, c.fits, c.size_kept);
}

pub Removed-append :
    {r r' r'' : Ring} (xs ys : List ℕ)
    → Removed r r' xs
    → Removed r' r'' ys
    → Removed r r'' (xs ++ ys)
Removed-append {r} {r'} {r''} xs ys a b = record {
  valid = b.valid;
  bytes = a.bytes ∙ ap (λ t. xs ++ t) b.bytes ∙ sym (append_assoc xs ys (contents r''));
  size_kept = b.size_kept ∙ a.size_kept;
  count = omega (arith, a.count, b.count, length-append xs ys);
  lost_kept = b.lost_kept ∙ a.lost_kept;
  reach_kept = omega (arith, a.reach_kept, b.reach_kept);
}

pub Removed-consumer_reserved :
    {r r' : Ring} {xs : List ℕ} (n : ℕ)
    → n ≤ r'.size
    → Removed r r' xs
    → Removed r (record r' { consumer_reserved_count = n }) xs
unfolding available pending_overflow
Removed-consumer_reserved {r} {r'} n h a = record {
  valid = ground (arith, a.valid);
  bytes = a.bytes;
  size_kept = a.size_kept;
  count = a.count;
  lost_kept = a.lost_kept;
  reach_kept = a.reach_kept;
}

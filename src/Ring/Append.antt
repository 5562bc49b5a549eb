-- ===== src/Ring/Append.antt =====
-- A ring after bytes have been appended to it.
use pico_uart.Prelude.{
  ℕ, ◌+◌, ◌≤◌, ◌≡◌, ◌∙◌, refl, sym, ap, List, [], ◌++◌, length, arith, append-nil, append_assoc,
  length-append,
}
use pico_uart.Ring.{pending_overflow, Ring, available, update_high_watermark}
use pico_uart.Ring.Invariant.{IsValid, update_high_watermark-IsValid}
use pico_uart.Ring.View.{lost, reach, contents, update_high_watermark_lem}

-- `r'` holds what `r` held and then `xs`, and has lost no byte that `r` had not.
pub record Appended (r r' : Ring) (xs : List ℕ) : Type 0 where
  pub valid : IsValid r'
  pub bytes : contents r' ≡ contents r ++ xs
  pub size_kept : r'.size ≡ r.size
  pub count : available r' ≡ available r + length xs
  pub lost_kept : lost r' ≡ lost r
  pub reach_kept : reach r' ≤ reach r

-- The watermark is no part of what a ring holds.
pub Appended-update_high_watermark :
    {r r' : Ring} {xs : List ℕ} → Appended r r' xs → Appended r (update_high_watermark r') xs
unfolding available pending_overflow
Appended-update_high_watermark {r} {r'} a = rw (update_high_watermark_lem r') (record {
  valid = (rw (update_high_watermark_lem r') at (update_high_watermark-IsValid a.valid));
  bytes = a.bytes;
  size_kept = a.size_kept;
  count = a.count;
  lost_kept = a.lost_kept;
  reach_kept = a.reach_kept;
})

pub Appended-append :
    {r r' r'' : Ring} (xs ys : List ℕ)
    → Appended r r' xs
    → Appended r' r'' ys
    → Appended r r'' (xs ++ ys)
Appended-append {r} xs ys a b = record {
  valid = b.valid;
  bytes = b.bytes ∙ ap (λ t. t ++ ys) a.bytes ∙ append_assoc (contents r) xs ys;
  size_kept = b.size_kept ∙ a.size_kept;
  count = omega (arith, a.count, b.count, length-append xs ys);
  lost_kept = b.lost_kept ∙ a.lost_kept;
  reach_kept = omega (arith, a.reach_kept, b.reach_kept);
}

pub unchanged-Appended : {r : Ring} → IsValid r → Appended r r []
unchanged-Appended {r} v = record {
  valid = v;
  bytes = sym (append-nil (contents r));
  size_kept = refl;
  count = omega arith;
  lost_kept = refl;
  reach_kept = omega arith;
}

pub nothing-Appended :
    {r : Ring} (n : ℕ)
    → IsValid r
    → n ≤ r.size
    → Appended r (record r { producer_reserved_count = n }) []
unfolding available pending_overflow
nothing-Appended {r} n v h = record {
  valid = ground arith;
  bytes = sym (append-nil (contents r));
  size_kept = refl;
  count = omega arith;
  lost_kept = refl;
  reach_kept = omega arith;
}

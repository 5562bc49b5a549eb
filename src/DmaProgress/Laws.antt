-- ===== src/DmaProgress/Laws.antt =====
-- What the progress arithmetic counts, and when a paused count is stable.
use native.Mathlib.Nat.{
  mod-eq-sub-mod, mod-eq_of_lt, mod-add-mod, mul-add-mod_self_right, mod-lt, one-le-pow,
  pow-le-pow_right,
}
use pico_uart.Prelude.{
  leb→le, ◌==◌, leb, zero, ap, suc, Bool-cases, inr, ◌∙◌, sym, inl, refl, bit_and_low, ◌⊎◌, arith,
  u32_max, replicate, ◌++◌, ◌%◌, ◌+◌, [], take, ◌*◌, ◌-◌, true, ◌∷◌, ◌≡◌, ◌^◌, false, length, Bool,
  ◌≤◌, ◌<◌, List, ℕ,
}
use pico_uart.DmaProgress.{
  bytes_produced, mask_remaining, progress_from_remaining, pause_progress_publishable, Tracker,
  paused_progress_sample,
}

-- One countdown of `max`, from progress `p`, by fewer than `max` bytes.
next_progress :
    (max p new : ℕ)
    → p < max
    → new < max
    → ((p + new < max) × ((p + new) % max ≡ p + new))
      ⊎ ((max ≤ p + new) × ((p + new) % max ≡ p + new - max))
next_progress max p new a b = elim (Bool-cases (leb max (p + new))) [
  | inl h ↦
      let over : max ≤ p + new = leb→le max (p + new) h in
      inr (over, mod-eq-sub-mod over ∙ mod-eq_of_lt (omega arith))
  | inr h ↦ let under : p + new < max = ground arith in inl (under, mod-eq_of_lt under)
]

countdown :
    (max p new : ℕ)
    → p < max
    → new < max
    → max ≤ u32_max
    → bytes_produced (progress_from_remaining (max - (p + new) % max) max) p max ≡ new
unfolding bytes_produced progress_from_remaining
countdown max p new a b c = elim (next_progress max p new a b) [
  | inl (under, e) ↦ rw e (ground arith)
  | inr (over, e) ↦ rw e (ground arith)
]

count_field :
    (k mode count : ℕ)
    → count ≤ 2 ^ k - 1
    → mask_remaining (mode * 2 ^ k + count) (2 ^ k - 1) ≡ count
unfolding mask_remaining
count_field k mode count h =
    let positive = one-le-pow k 2 (omega arith) in
    bit_and_low k (mode * 2 ^ k + count)
    ∙ mul-add-mod_self_right mode (2 ^ k) count
    ∙ mod-eq_of_lt (omega arith)

-- Between two looks at a channel that counts down from `2 ^ k - 1` and starts again, with whatever
-- mode bits above the count, the progress grows by the bytes that came in, if there were fewer than
-- one countdown of them: `total` bytes came before the first look and `new` between the two.
pub bytes_produced_lem :
    (k mode total new : ℕ)
    → 0 < k
    → k ≤ 32
    → new < 2 ^ k - 1
    → let max = 2 ^ k - 1 in
      bytes_produced
        (progress_from_remaining
          (mask_remaining (mode * 2 ^ k + (max - (total + new) % max)) max)
          max)
        (total % max)
        max
      ≡ new
bytes_produced_lem k mode total new a b h =
    let wide : 2 ^ k ≤ 2 ^ 32 = pow-le-pow_right (omega arith) b in
    let positive = one-le-pow k 2 (omega arith) in
    let max = 2 ^ k - 1 in
    let inside : total % max < max = mod-lt total (omega arith) in
    rw (count_field k mode (max - (total + new) % max) (omega arith)) (
      rw (sym (mod-add-mod total max new)) (countdown max (total % max) new inside h (omega arith)))

-- Sampling the counts of a history, the newest first, with the tracker's start below them.
unfoldable pub sample_all : ℕ → Tracker → List ℕ → Bool × Tracker
sample_all needed t [] = (false, t)
sample_all needed t (now ∷ before) =
    paused_progress_sample now (sample_all needed t before).1 needed

-- What one sample does to the tracker.
sample_next :
    (needed now : ℕ) (t : Tracker)
    → 0 < needed
    → t.stable_count < 0xffff_ffff
    → ((now ≡ t.last)
        × ((paused_progress_sample now t needed).1
            ≡ record { last = t.last; stable_count = t.stable_count + 1 }))
      ⊎ ((paused_progress_sample now t needed).1 ≡ record { last = now; stable_count = 0 })
unfolding paused_progress_sample
sample_next needed now t z h = elim (Bool-cases (now == t.last)) [
  | inl e ↦ inl (ground arith, ground arith)
  | inr e ↦ inr (ground arith)
]

stable_needed :
    (needed now : ℕ) (t : Tracker)
    → (paused_progress_sample now t needed).0 ≡ true
    → (0 < needed) × (needed ≤ (paused_progress_sample now t needed).1.stable_count)
unfolding paused_progress_sample
stable_needed needed now t h = ground arith

prefix_cons :
    (n x : ℕ) (xs : List ℕ)
    → take n xs ≡ replicate n x
    → take (n + 1) (x ∷ xs) ≡ replicate (n + 1) x
prefix_cons n x xs h = let e : n + 1 ≡ suc n = omega arith in rw e (ap (λ r. x ∷ r) h)

module _ (needed first : ℕ) where
  abbrev tracked : List ℕ → Tracker
  tracked history = (sample_all needed (record { last = first; stable_count = 0 }) history).1

  -- The tracker's count is that of the newest values that are the same.
  sample_all_count :
      (history : List ℕ)
      → 0 < needed
      → length history < 0xffff_ffff
      → let t = tracked history in
        (t.stable_count ≤ length history)
        × (take (t.stable_count + 1) (history ++ first ∷ [])
            ≡ replicate (t.stable_count + 1) t.last)
  unfolding sample_all
  sample_all_count [] z h = (omega arith, refl)
  sample_all_count (now ∷ before) z h =
      let t = tracked before in
      let (small, same) = sample_all_count before z (omega arith) in
      elim (sample_next needed now t z (omega arith)) [
        | inl (e, n) ↦ rw n (
            rw e (omega arith, prefix_cons (t.stable_count + 1) t.last (before ++ first ∷ []) same))
        | inr n ↦ rw n (omega arith, refl)
      ]

take-take_le : {A : Type 0} (m n : ℕ) (xs : List A) → m ≤ n → take m (take n xs) ≡ take m xs
take-take_le zero n xs h = refl
take-take_le (suc m) zero xs h = absurd (omega arith)
take-take_le (suc m) (suc n) [] h = refl
take-take_le (suc m) (suc n) (x ∷ xs) h = ap (λ r. x ∷ r) (take-take_le m n xs (omega arith))

take-replicate : {A : Type 0} (m n : ℕ) (x : A) → m ≤ n → take m (replicate n x) ≡ replicate m x
take-replicate zero n x h = refl
take-replicate (suc m) zero x h = absurd (omega arith)
take-replicate (suc m) (suc n) x h = ap (λ r. x ∷ r) (take-replicate m n x (omega arith))

-- A count is published only when the last `needed + 1` values seen, the first one included, are that count.
sample_all_lem :
    (needed first : ℕ) (history : List ℕ)
    → length history < 0xffff_ffff
    → let (stable, t) = sample_all needed (record { last = first; stable_count = 0 }) history in
      pause_progress_publishable stable ≡ true
      → take (needed + 1) (history ++ first ∷ []) ≡ replicate (needed + 1) t.last
unfolding sample_all pause_progress_publishable
sample_all_lem needed first [] h p = absurd (ground arith)
sample_all_lem needed first (now ∷ before) h p =
    let t = tracked needed first (now ∷ before) in
    let (z, enough) = stable_needed needed now (tracked needed first before) p in
    let (small, same) = sample_all_count needed first (now ∷ before) z h in
    sym (take-take_le (needed + 1) (t.stable_count + 1) (now ∷ before ++ first ∷ []) (omega arith))
    ∙ ap (take (needed + 1)) same
    ∙ take-replicate (needed + 1) (t.stable_count + 1) t.last (omega arith)

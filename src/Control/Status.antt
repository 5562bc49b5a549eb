-- ===== src/Control/Status.antt =====
-- The status flags that a control request owns.
use pico_uart.Prelude.{
  Bool-cases, ◌≢◌, inr, ◌⊎◌, inl, ◌==◌, ◌-◌, bit_and, not, arith, ◌<◌, refl, zero, if◌then◌else◌,
  false, suc, ◌≡◌, ◌^◌, Bool, ◌&&◌, true, ℕ,
}
use pico_uart.Control.{apply_completion_error, tx_should_block, completion_is_current}

-- A test of all numbers below a bound, as far as it computes.
abbrev all_below : ℕ → (ℕ → Bool) → Bool
all_below zero p = true
all_below (suc n) p = p n && all_below n p

below_suc : (n i : ℕ) → i < suc n → (i ≡ n) ⊎ (i < n)
below_suc n i h = ground arith

and-fst : (a b : Bool) → (a && b) ≡ true → a ≡ true
and-fst a b h = ground arith

and-snd : (a b : Bool) → (a && b) ≡ true → b ≡ true
and-snd a b h = ground arith

all_below_lem : (n : ℕ) (p : ℕ → Bool) (i : ℕ) → all_below n p ≡ true → i < n → p i ≡ true
all_below_lem zero p i h l = absurd (omega arith)
all_below_lem (suc n) p i h l = elim (below_suc n i l) [
  | inl e ↦ rw e (and-fst (p n) _ h)
  | inr b ↦ all_below_lem n p i (and-snd (p n) _ h) b
]

-- The error bit `2 ^ k` of a byte after a current completion, and the other bits.
abbrev sets_error : ℕ → ℕ → Bool → Bool
sets_error k flags success =
    let flags' = apply_completion_error flags (2 ^ k) 0 0 success in
    (if success then not (tx_should_block flags' (2 ^ k)) else tx_should_block flags' (2 ^ k))
    && bit_and flags' (255 - 2 ^ k) == bit_and flags (255 - 2 ^ k)

all_set : all_below 8 (λ k. all_below 256 (λ f. sets_error k f true && sets_error k f false)) ≡ true
unfolding apply_completion_error tx_should_block completion_is_current
all_set = refl

current_error :
    (k flags : ℕ) (success : Bool) → k < 8 → flags < 256 → sets_error k flags success ≡ true
current_error k flags success a b =
    let row =
      all_below_lem 256 (λ f. sets_error k f true && sets_error k f false) flags
        (all_below_lem 8 (λ k. all_below 256 (λ f. sets_error k f true && sets_error k f false)) k
          all_set a)
        b in
    elim success as (λ c. sets_error k flags c ≡ true) [
      | true ↦ and-fst (sets_error k flags true) (sets_error k flags false) row
      | false ↦ and-snd (sets_error k flags true) (sets_error k flags false) row
    ]

current_as_zero :
    (bit flags completion latest : ℕ) (success : Bool)
    → completion ≡ latest
    → apply_completion_error flags bit completion latest success
      ≡ apply_completion_error flags bit 0 0 success
unfolding apply_completion_error completion_is_current
current_as_zero bit flags completion latest success h = ground arith

stale_kept :
    (bit flags completion latest : ℕ) (success : Bool)
    → completion ≢ latest
    → apply_completion_error flags bit completion latest success ≡ flags
unfolding apply_completion_error completion_is_current
stale_kept bit flags completion latest success h = ground arith

error_level :
    (k flags : ℕ) (success : Bool)
    → sets_error k flags success ≡ true
    → tx_should_block (apply_completion_error flags (2 ^ k) 0 0 success) (2 ^ k) ≡ not success
error_level k flags success h = ground arith

error_rest :
    (k flags : ℕ) (success : Bool)
    → sets_error k flags success ≡ true
    → bit_and (apply_completion_error flags (2 ^ k) 0 0 success) (255 - 2 ^ k)
      ≡ bit_and flags (255 - 2 ^ k)
error_rest k flags success h = ground arith

-- After a completion of the newest request the error bit of the status byte says whether it failed,
-- and after an older one the byte is as it was; the other bits are kept by both.
completion_error_lem :
    (k flags completion latest : ℕ) (success : Bool)
    → k < 8
    → flags < 256
    → let flags' = apply_completion_error flags (2 ^ k) completion latest success in
      (completion ≡ latest → tx_should_block flags' (2 ^ k) ≡ not success)
      × (completion ≢ latest → flags' ≡ flags)
      × (bit_and flags' (255 - 2 ^ k) ≡ bit_and flags (255 - 2 ^ k))
completion_error_lem k flags completion latest success a b =
    let bit = 2 ^ k in
    let both = current_error k flags success a b in
    (
      λ e.
          rw (current_as_zero bit flags completion latest success e)
            (error_level k flags success both),
      λ n. stale_kept bit flags completion latest success n,
      elim (Bool-cases (completion == latest)) [
        | inl e ↦
            rw (current_as_zero bit flags completion latest success (ground arith))
              (error_rest k flags success both)
        | inr n ↦ rw (stale_kept bit flags completion latest success (ground arith)) refl
      ],
    )

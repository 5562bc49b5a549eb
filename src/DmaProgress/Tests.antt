-- ===== src/DmaProgress/Tests.antt =====
-- A countdown of the RP2350 that starts again between two looks, and a history that settles.
use pico_uart.DmaProgress.Laws.{sample_all, bytes_produced_lem}
use pico_uart.Prelude.{true, ℕ, List, ◌%◌, ◌+◌, [], ◌*◌, ◌∷◌, ◌-◌, ◌^◌, refl, ◌≡◌, arith}
use pico_uart.DmaProgress.{
  paused_progress_sample, bytes_produced, mask_remaining, progress_from_remaining,
  pause_progress_publishable,
}

bytes_produced_lem_example :
    let max = 2 ^ 28 - 1 in
    bytes_produced
      (progress_from_remaining
        (mask_remaining (1 * 2 ^ 28 + (max - (268435450 + 9) % max)) max)
        max)
      (268435450 % max)
      max
    ≡ 9
bytes_produced_lem_example =
    bytes_produced_lem 28 1 268435450 9 (omega arith) (omega arith) (omega arith)

abbrev settled : List ℕ
settled = 5 ∷ 5 ∷ 5 ∷ 5 ∷ []

settled_stable :
    pause_progress_publishable (sample_all 3 (record { last = 7; stable_count = 0 }) settled).0
    ≡ true
unfolding pause_progress_publishable sample_all paused_progress_sample
settled_stable = refl

-- ===== src/DmaProgress.antt =====
-- The arithmetic of the receive DMA's progress: firmware/src/uart/dma/progress_math.h.
pub mod Laws
mod Tests
use pico_uart.Prelude.{leb, add32, false, ◌==◌, ltb, if◌then◌else◌, sub32, bit_and, Bool, ℕ}

abbrev pub transfer_count_max_rp2040 : ℕ
transfer_count_max_rp2040 = 0xffff_ffff

abbrev pub transfer_count_mask_rp2350 : ℕ
transfer_count_mask_rp2350 = 0x0fff_ffff

unfoldable pub bytes_produced : ℕ → ℕ → ℕ → ℕ
bytes_produced progress last_progress transfer_count_max =
    if ltb progress last_progress
    then add32 (sub32 transfer_count_max last_progress) progress
    else sub32 progress last_progress

unfoldable pub mask_remaining : ℕ → ℕ → ℕ
mask_remaining raw_transfer_count count_mask = bit_and raw_transfer_count count_mask

unfoldable pub progress_from_remaining : ℕ → ℕ → ℕ
progress_from_remaining remaining transfer_count_max = sub32 transfer_count_max remaining

unfoldable pub pause_progress_publishable : Bool → Bool
pause_progress_publishable stabilized = stabilized

-- The tracker's two variables.
pub record Tracker : Type 0 where
  pub last : ℕ
  pub stable_count : ℕ

unfoldable pub paused_progress_sample : ℕ → Tracker → ℕ → Bool × Tracker
paused_progress_sample now t needed =
    if needed == 0
    then (false, t)
    else if now == t.last
    then (
      leb needed (add32 t.stable_count 1),
      record { last = t.last; stable_count = add32 t.stable_count 1 },
    )
    else (false, record { last = now; stable_count = 0 })

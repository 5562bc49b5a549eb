-- ===== src/Policy.antt =====
-- The decisions that the UART backends share: firmware/src/uart/backend/policy.h, and the idle
-- probe of firmware/src/uart/pio/txstall_wait.h.
pub mod Laws
mod Tests
use pico_uart.Prelude.{
  ◌||◌, ◌/◌, u64, false, ltb, ◌==◌, ◌*◌, leb, true, not, u32, if◌then◌else◌, ◌&&◌, ℕ, Bool,
}

unfoldable pub line_format_idle : Bool → Bool → Bool → Bool
line_format_idle tx_dma_active uart_busy rx_fifo_readable =
    not tx_dma_active && not uart_busy && not rx_fifo_readable

unfoldable pub poll_should_rearm : Bool → Bool → ℕ → Bool
poll_should_rearm channel_valid channel_busy remaining =
    channel_valid && not channel_busy && remaining == 0

unfoldable pub rts_should_assert : Bool → ℕ → ℕ → Bool
rts_should_assert currently_asserted occupancy ring_size =
    let high_watermark = u32 (ring_size * 3) / 4 in
    let low_watermark = ring_size / 2 in
    if currently_asserted && leb high_watermark occupancy
    then false
    else if not currently_asserted && leb occupancy low_watermark
    then true
    else currently_asserted

unfoldable pub irq_should_rearm : Bool → Bool → Bool → ℕ → Bool
irq_should_rearm owner_present irq_pending channel_busy remaining =
    owner_present && irq_pending && not channel_busy && remaining == 0

-- `uart_pio_tx_action_t`
pub data TxAction : Type 0 where
  keep_dma start_dma drain_fifo : TxAction

unfoldable pub tx_action : Bool → ℕ → ℕ → TxAction
tx_action tx_dma_active occupancy dma_threshold =
    if tx_dma_active
    then keep_dma
    else if leb dma_threshold occupancy
    then start_dma
    else drain_fifo

unfoldable pub tx_transfer_bytes : ℕ → ℕ → ℕ → ℕ → ℕ → ℕ
tx_transfer_bytes occupancy max_transfer baud_rate bits_per_frame budget_ms =
    let transfer_bytes = if ltb occupancy max_transfer then occupancy else max_transfer in
    let budget_bits = u64 (baud_rate * budget_ms) in
    let quotient = u32 (budget_bits / u32 (1000 * bits_per_frame)) in
    let budget_bytes = if quotient == 0 then 1 else quotient in
    if transfer_bytes == 0 || baud_rate == 0 || bits_per_frame == 0 || budget_ms == 0
    then 0
    else if ltb budget_bytes transfer_bytes
    then budget_bytes
    else transfer_bytes

unfoldable pub should_service_owner : Bool → Bool → Bool
should_service_owner owner_present irq_pending = owner_present && irq_pending

-- `pio_uart_txstall_action_t`
pub data StallAction : Type 0 where
  stall_wait stall_clear stall_idle : StallAction

-- The probe's new state and the action.
unfoldable pub txstall_sample : Bool → Bool → Bool × StallAction
txstall_sample waiting stalled =
    if not waiting
    then (if not stalled then (waiting, stall_wait) else (true, stall_clear))
    else if not stalled
    then (waiting, stall_wait)
    else (false, stall_idle)

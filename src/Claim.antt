-- ===== src/Claim.antt =====
-- Claiming DMA channels and PIO state machines, all or none: firmware/src/uart/hw/dma_claim.c and
-- firmware/src/uart/pio/resource_claim.c. The SDK's calls behind the two `ops` tables are
-- parameters on its state; a channel number below zero is `none`. The pointers are not null.
pub mod Rollback
mod Tests
use pico_uart.Prelude.{◌||◌, some, true, if◌then◌else◌, ℕ, false, none, Bool, Option}

-- `rx_dma_channel` and `tx_dma_channel`
pub record Channels : Type 0 where
  pub rx_dma_channel : Option ℕ
  pub tx_dma_channel : Option ℕ

abbrev pub no_channels : Channels
no_channels = record { rx_dma_channel = none; tx_dma_channel = none }

-- The flags for the state machines and the channels.
pub record Resources : Type 0 where
  pub tx_sm_claimed : Bool
  pub rx_sm_claimed : Bool
  pub channels : Channels

abbrev pub no_resources : Resources
no_resources = record { tx_sm_claimed = false; rx_sm_claimed = false; channels = no_channels }

module _ {ℓ} {S : Type ℓ} (claim_channel : S → Option ℕ × S) (unclaim_channel : ℕ → S → S) where
  -- The second claim, after the receive channel `rx`.
  unfoldable pub claim_tx_channel : ℕ → Option ℕ × S → Bool × Channels × S
  claim_tx_channel rx (some tx, s) =
      (true, record { rx_dma_channel = some rx; tx_dma_channel = some tx }, s)
  claim_tx_channel rx (none, s) = (false, no_channels, unclaim_channel rx s)

  unfoldable pub claim_rx_channel : Option ℕ × S → Bool × Channels × S
  claim_rx_channel (some rx, s) = claim_tx_channel rx (claim_channel s)
  claim_rx_channel (none, s) = (false, no_channels, s)

  unfoldable pub claim_dma_channels : S → Bool × Channels × S
  claim_dma_channels s = claim_rx_channel (claim_channel s)

  module _ (sm_is_claimed : S → ℕ → Bool) (sm_claim sm_unclaim : ℕ → S → S) where
    -- The end of the function: the result, or the label `unclaim_state_machines`.
    unfoldable pub finish_claim : ℕ → ℕ → Bool × Channels × S → Bool × Resources × S
    finish_claim tx_sm rx_sm (true, channels, s) =
        (true, record { tx_sm_claimed = true; rx_sm_claimed = true; channels = channels }, s)
    finish_claim tx_sm rx_sm (false, channels, s) = (
      false,
      record { tx_sm_claimed = false; rx_sm_claimed = false; channels = channels },
      sm_unclaim tx_sm (sm_unclaim rx_sm s),
    )

    unfoldable pub claim_resources : ℕ → ℕ → S → Bool × Resources × S
    claim_resources tx_sm rx_sm s =
        if sm_is_claimed s tx_sm || sm_is_claimed s rx_sm
        then (false, no_resources, s)
        else finish_claim tx_sm rx_sm (claim_dma_channels (sm_claim rx_sm (sm_claim tx_sm s)))

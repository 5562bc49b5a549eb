-- ===== src/Claim/Rollback.antt =====
-- A failed claim leaves nothing claimed.
use pico_uart.Prelude.{inr, inl, ◌||◌, Bool-cases, refl, ◌≡◌, arith}
use pico_uart.Prelude.{◌∙◌, true, ◌≢◌, ap, false, some, none, ◌≡◌, Bool, ℕ, Option}
use pico_uart.Claim.{
  finish_claim, Resources, no_resources, claim_rx_channel, claim_tx_channel, no_channels, Channels,
  claim_dma_channels, claim_resources,
}

module _ {ℓ} {S : Type ℓ} (claim_channel : S → Option ℕ × S) (unclaim_channel : ℕ → S → S) where
  -- All or nothing, for the two channels.
  abbrev pub IsAtomic : S → Bool × Channels × S → Type ℓ
  IsAtomic s (true, channels, s') =
      (rx : ℕ) × (tx : ℕ) × (s1 : S) × (claim_channel s ≡ (some rx, s1))
      × (claim_channel s1 ≡ (some tx, s'))
      × (channels ≡ record { rx_dma_channel = some rx; tx_dma_channel = some tx })
  IsAtomic s (false, channels, s') = (s' ≡ s) × (channels ≡ no_channels)

  module _ (refused : (s s' : S) → claim_channel s ≡ (none, s') → s' ≡ s)
      (undone : (s s' : S) (c : ℕ)
        → claim_channel s ≡ (some c, s')
        → unclaim_channel c s' ≡ s) where
    tx-IsAtomic :
        (s s1 : S) (rx : ℕ)
        → claim_channel s ≡ (some rx, s1)
        → (t : Option ℕ × S) → claim_channel s1 ≡ t
        → IsAtomic s (claim_tx_channel claim_channel unclaim_channel rx t)
    unfolding claim_tx_channel
    tx-IsAtomic s s1 rx h (some tx, s2) e = (rx, tx, s1, h, e, refl)
    tx-IsAtomic s s1 rx h (none, s2) e =
        (ap (unclaim_channel rx) (refused s1 s2 e) ∙ undone s s1 rx h, refl)

    rx-IsAtomic :
        (s : S) (t : Option ℕ × S)
        → claim_channel s ≡ t
        → IsAtomic s (claim_rx_channel claim_channel unclaim_channel t)
    unfolding claim_rx_channel
    rx-IsAtomic s (some rx, s1) e = tx-IsAtomic s s1 rx e (claim_channel s1) refl
    rx-IsAtomic s (none, s1) e = (refused s s1 e, refl)

-- If the driver's claim of a channel changes nothing where it fails, and its release undoes the
-- claim before it, then claiming two channels either gives the ones of two claims in a row, or it
-- leaves the driver's state as it was and no channel in the variables.
pub claim_dma_lem {ℓ} :
    {S : Type ℓ} (claim_channel : S → Option ℕ × S) (unclaim_channel : ℕ → S → S)
    → ((s s' : S) → claim_channel s ≡ (none, s') → s' ≡ s)
    → ((s s' : S) (c : ℕ) → claim_channel s ≡ (some c, s') → unclaim_channel c s' ≡ s)
    → (s : S)
    → IsAtomic claim_channel unclaim_channel s (claim_dma_channels claim_channel unclaim_channel s)
unfolding claim_dma_channels
claim_dma_lem claim_channel unclaim_channel refused undone s =
    rx-IsAtomic claim_channel unclaim_channel refused undone s (claim_channel s) refl

-- The claim of `claim_resources_lem` at one outcome.
abbrev IsAllOrNone {ℓ} : {S : Type ℓ} → (S → ℕ → Bool) → ℕ → ℕ → S → Bool × Resources × S → Type ℓ
IsAllOrNone sm_is_claimed tx_sm rx_sm s (done, resources, s') =
    (done ≡ false → (s' ≡ s) × (resources ≡ no_resources))
    × (done ≡ true
        → (sm_is_claimed s tx_sm ≡ false)
          × (sm_is_claimed s rx_sm ≡ false)
          × (resources.tx_sm_claimed ≡ true)
          × (resources.rx_sm_claimed ≡ true)
          × (resources.channels.rx_dma_channel ≢ none)
          × (resources.channels.tx_dma_channel ≢ none))

finish-IsAllOrNone {ℓ} :
    {S : Type ℓ} (claim_channel : S → Option ℕ × S) (unclaim_channel : ℕ → S → S)
    (sm_is_claimed : S → ℕ → Bool) (sm_claim sm_unclaim : ℕ → S → S) (tx rx : ℕ) (s s1 : S)
    → sm_is_claimed s tx ≡ false
    → sm_is_claimed s rx ≡ false
    → sm_unclaim tx (sm_unclaim rx s1) ≡ s
    → (t : Bool × Channels × S) → IsAtomic claim_channel unclaim_channel s1 t
    → IsAllOrNone sm_is_claimed tx rx s
        (finish_claim claim_channel unclaim_channel sm_is_claimed sm_claim sm_unclaim tx rx t)
unfolding finish_claim
finish-IsAllOrNone claim_channel unclaim_channel sm_is_claimed sm_claim sm_unclaim tx rx s s1 tf rf
      back (true, channels, s2) (a, b, s3, ea, eb, ec) =
    (
      λ d. absurd (ground arith),
      λ d. (tf, rf, refl, refl, rw ec (λ q. ground arith), rw ec (λ q. ground arith)),
    )
finish-IsAllOrNone claim_channel unclaim_channel sm_is_claimed sm_claim sm_unclaim tx rx s s1 tf rf
      back (false, channels, s2) (e, ec) =
    (λ d. (rw e back, rw ec refl), λ d. absurd (ground arith))

-- If, besides, the release of a state machine undoes its claim where it was free, and the claim of
-- one leaves another as it was, then a failed claim of the resources of a port with two state
-- machines leaves the driver's state as it was and no flag or channel set; and a successful one
-- had both machines free, and has both flags and both channels set.
pub claim_resources_lem {ℓ} :
    {S : Type ℓ} (claim_channel : S → Option ℕ × S) (unclaim_channel : ℕ → S → S)
    (sm_is_claimed : S → ℕ → Bool) (sm_claim sm_unclaim : ℕ → S → S)
    → ((s s' : S) → claim_channel s ≡ (none, s') → s' ≡ s)
    → ((s s' : S) (c : ℕ) → claim_channel s ≡ (some c, s') → unclaim_channel c s' ≡ s)
    → ((s : S) (m : ℕ) → sm_is_claimed s m ≡ false → sm_unclaim m (sm_claim m s) ≡ s)
    → ((s : S) (m n : ℕ) → m ≢ n → sm_is_claimed (sm_claim m s) n ≡ sm_is_claimed s n)
    → (tx_sm rx_sm : ℕ) → tx_sm ≢ rx_sm
    → (s : S)
    → let (done, resources, s') =
        claim_resources claim_channel unclaim_channel sm_is_claimed sm_claim sm_unclaim tx_sm rx_sm
          s in
      (done ≡ false → (s' ≡ s) × (resources ≡ no_resources))
      × (done ≡ true
          → (sm_is_claimed s tx_sm ≡ false)
            × (sm_is_claimed s rx_sm ≡ false)
            × (resources.tx_sm_claimed ≡ true)
            × (resources.rx_sm_claimed ≡ true)
            × (resources.channels.rx_dma_channel ≢ none)
            × (resources.channels.tx_dma_channel ≢ none))
unfolding claim_resources
claim_resources_lem claim_channel unclaim_channel sm_is_claimed sm_claim sm_unclaim refused undone
      sm_undone sm_apart tx rx apart s =
    elim (Bool-cases (sm_is_claimed s tx || sm_is_claimed s rx)) [
      | inl h ↦ rw h (λ d. (refl, refl), λ d. absurd (ground arith))
      | inr h ↦
          let tx_free : sm_is_claimed s tx ≡ false = ground arith in
          let rx_free : sm_is_claimed s rx ≡ false = ground arith in
          rw h (
            finish-IsAllOrNone claim_channel unclaim_channel sm_is_claimed sm_claim sm_unclaim tx rx
              s (sm_claim rx (sm_claim tx s)) tx_free rx_free
              (ap (sm_unclaim tx) (sm_undone (sm_claim tx s) rx (sm_apart s tx rx apart ∙ rx_free))
                ∙ sm_undone s tx tx_free)
              (claim_dma_channels claim_channel unclaim_channel (sm_claim rx (sm_claim tx s)))
              (claim_dma_lem claim_channel unclaim_channel refused undone
                (sm_claim rx (sm_claim tx s))))
    ]

-- ===== src/Claim/Tests.antt =====
-- A driver with twelve channels, claimed in their order, and a set of claimed state machines.
use pico_uart.Claim.Rollback.{claim_resources_lem}
use pico_uart.Prelude.{
  ◌+◌, true, ltb, ◌==◌, some, if◌then◌else◌, Bool, ◌≢◌, ℕ, none, Option, false, ◌≡◌, arith,
}
use pico_uart.Claim.{no_resources, claim_resources}

abbrev Sdk : Type 0
Sdk = ℕ × (ℕ → Bool)

abbrev claim_next : Sdk → Option ℕ × Sdk
claim_next (used, machines) =
    if ltb used 12 then (some used, (used + 1, machines)) else (none, (used, machines))

abbrev unclaim_last : ℕ → Sdk → Sdk
unclaim_last channel (used, machines) = (channel, machines)

abbrev is_claimed : Sdk → ℕ → Bool
is_claimed (used, machines) m = machines m

abbrev claim_machine : ℕ → Sdk → Sdk
claim_machine m (used, machines) = (used, λ n. if n == m then true else machines n)

abbrev unclaim_machine : ℕ → Sdk → Sdk
unclaim_machine m (used, machines) = (used, λ n. if n == m then false else machines n)

next_refused : (s s' : Sdk) → claim_next s ≡ (none, s') → s' ≡ s
next_refused (used, machines) s' h = grind arith

next_undone : (s s' : Sdk) (c : ℕ) → claim_next s ≡ (some c, s') → unclaim_last c s' ≡ s
next_undone (used, machines) s' c h = grind arith

machine_undone :
    (s : Sdk) (m : ℕ) → is_claimed s m ≡ false → unclaim_machine m (claim_machine m s) ≡ s
machine_undone (used, machines) m h = λ i. (used, λ n. at n i)
  where
    at : (n : ℕ) → (if n == m then false else if n == m then true else machines n) ≡ machines n
    at n = ground arith

machine_apart : (s : Sdk) (m n : ℕ) → m ≢ n → is_claimed (claim_machine m s) n ≡ is_claimed s n
machine_apart (used, machines) m n h = ground arith

abbrev one_left : Sdk
one_left = (11, λ n. false)

abbrev zero_machine : ℕ
zero_machine = 0

machines_differ : zero_machine ≢ 1
machines_differ e = absurd (omega arith)

claim_resources_lem_example :
    let (done, resources, s') =
      claim_resources claim_next unclaim_last is_claimed claim_machine unclaim_machine 0 1
        one_left in
    (done ≡ false → (s' ≡ one_left) × (resources ≡ no_resources))
    × (done ≡ true
        → (false ≡ false)
          × (false ≡ false)
          × (resources.tx_sm_claimed ≡ true)
          × (resources.rx_sm_claimed ≡ true)
          × (resources.channels.rx_dma_channel ≢ none)
          × (resources.channels.tx_dma_channel ≢ none))
claim_resources_lem_example =
    claim_resources_lem claim_next unclaim_last is_claimed claim_machine unclaim_machine
      next_refused next_undone machine_undone machine_apart 0 1 machines_differ one_left

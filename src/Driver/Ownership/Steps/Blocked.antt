-- ===== src/Driver/Ownership/Steps/Blocked.antt =====
-- The transmit side of a port is blocked just while a request or a stop holds it.
use pico_uart.Prelude.{refl}
use pico_uart.Ring.{Ring}
use pico_uart.Control.Flags.{has}
use pico_uart.Driver.Ownership.Steps.Keep.{work-IsOwned, usb_call-worker, usb_call-IsOwned}
use pico_uart.Driver.Ownership.Steps.Hold.{work-IsHolding, IsHolding}
use pico_uart.Control.{tx_should_block}
use pico_uart.Driver.{fill_port, port_tx_is_blocked}
use pico_uart.Runtime.{Port}
use pico_uart.Driver.Ownership.Steps.{core0, core1, quiet, next}
use pico_uart.Prelude.{not, by_test, by_option, List, sym, subst, ◌||◌, arith, ◌≡◌, ℕ, true}
use pico_uart.Driver.Ownership.{IsOwned, requested}
use pico_uart.Driver.Ownership.Steps.{next, quiet, Step, IsQuiet, Reach, Worker}

module _ {B : Type 0} (port_id : ℕ) where
  -- What a reachable state keeps.
  record Keeps (s : Port B × Worker) : Type 0 where
    owned : IsOwned port_id s.0
    holding : IsHolding s.0.worker s.1

  Step-Keeps : {s t : Port B × Worker} → Keeps s → Step port_id s t → Keeps t
  Step-Keeps k (core0 c {port = port} {w = w}) = record {
    owned = usb_call-IsOwned port_id c k.owned;
    holding = subst (λ p. IsHolding p w) (sym (usb_call-worker port_id c port)) k.holding;
  }
  Step-Keeps k (core1 body clock later {port = port} {w = w}) = record {
    owned = work-IsOwned port_id body clock later w k.owned;
    holding = work-IsHolding port_id body clock later port w;
  }

  quiet-IsOwned : (port : Port B) → IsQuiet port → IsOwned port_id port
  quiet-IsOwned port q = ground arith

  Reach-Keeps : {s : Port B × Worker} → Reach port_id s → Keeps s
  Reach-Keeps (quiet {port = port} q) = record { owned = quiet-IsOwned port q; holding = tt }
  Reach-Keeps (next r step) = Step-Keeps (Reach-Keeps r) step

-- However the calls of core 0 and the sections of the worker interleave, from a port at rest: while a
-- line-coding request of the port is with the USB side, in the mailbox or with the worker, also in
-- the time between its removal from the mailbox and its answer, the port's transmit side is blocked;
-- the transmit side is blocked for no other reason than such a request or a stop that waits; a
-- request in the mailbox is of this port; and a request that the worker has taken, and not yet
-- answered or launched the port with, is marked as the worker's.
pub tx_blocked_iff_requested :
    {B : Type 0} (port_id : ℕ) (port : Port B) (w : Worker)
    → Reach port_id (port, w)
    → (requested port ≡ true → port_tx_is_blocked port ≡ true)
      × (port_tx_is_blocked port ≡ true → (requested port || port.lifecycle.stop_pending) ≡ true)
      × (port.mailbox.occupied ≡ true → port.mailbox.request.port_id ≡ port_id)
      × IsHolding port.worker w
unfolding port_tx_is_blocked tx_should_block has
tx_blocked_iff_requested port_id port w r =
    let k = Reach-Keeps port_id r in
    (k.owned.held.blocks, k.owned.owner, k.owned.held.addressed, k.holding)

-- Whatever the cores have done, from a port at rest: while a line-coding request of the port is with
-- the USB side, in the mailbox or with the worker, the USB side's fill moves no byte into the transmit
-- ring, and takes none from its reader.
pub fill_while_requested :
    {B S : Type 0} (port_id : ℕ) (port : Port B) (w : Worker)
    → Reach port_id (port, w)
    → requested port ≡ true
    → (put_ring : B → Ring → B) (reader : S → ℕ → S × List ℕ) (rounds capacity : ℕ) (s : S)
    → fill_port put_ring reader rounds capacity (port, s) ≡ ((port, s), 0)
unfolding fill_port
fill_while_requested {B} {S} port_id port w r q put_ring reader rounds capacity s =
    let b = (tx_blocked_iff_requested port_id port w r).0 q in
    let P : (Port B × S) × ℕ → Type 0 = λ x. x ≡ ((port, s), 0) in
    by_option P port.ops _ _ (λ _. refl)
      (λ ops _.
        by_option P (ops.tx_ring port.backend) _ _ (λ _. refl)
          (λ ring _.
            by_test P (not (ops.is_initialized port.backend) || port_tx_is_blocked port) (λ _. refl)
              (λ f. absurd (ground arith))))

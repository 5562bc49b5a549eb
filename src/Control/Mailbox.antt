-- ===== src/Control/Mailbox.antt =====
-- The mailbox as a queue of at most one request.
use pico_uart.Prelude.{
  arith, ap, ◌≢◌, ◌↔◌, true, false, refl, Bool, ℕ, [], ◌++◌, ◌∷◌, ◌≡◌, if◌then◌else◌, List,
}
use pico_uart.Control.{
  Request, Slot, publish, take_request, reset, has_pending_port, can_publish, zero_request,
}

-- What the slot holds.
unfoldable pub queued : Slot → List Request
queued mailbox = if mailbox.occupied then mailbox.request ∷ [] else []

-- The calls that the cores make.
pub data Call : Type 0 where
  publish_call : Request → Call
  take_call : Call

-- The requests accepted and those taken, the newest first.
pub record Traffic : Type 0 where
  pub accepted : List Request
  pub taken : List Request

unfoldable pub call : Call → Slot × Traffic → Slot × Traffic
call (publish_call request) (mailbox, traffic) =
    let (ok, mailbox') = publish mailbox request in
    (
      mailbox',
      record {
        accepted = if ok then request ∷ traffic.accepted else traffic.accepted;
        taken = traffic.taken;
      },
    )
call take_call (mailbox, traffic) =
    let (ok, mailbox', request) = take_request mailbox zero_request in
    (
      mailbox',
      record {
        accepted = traffic.accepted;
        taken = if ok then request ∷ traffic.taken else traffic.taken;
      },
    )

unfoldable pub run : List Call → Slot × Traffic → Slot × Traffic
run [] s = s
run (c ∷ cs) s = run cs (call c s)

-- The accepted requests are those taken and the one that waits.
abbrev pub Balanced : Slot × Traffic → Type 0
Balanced (mailbox, traffic) = traffic.accepted ≡ queued mailbox ++ traffic.taken

publish-Balanced :
    (request : Request) (b : Bool) (q : Request) (traffic : Traffic)
    → Balanced (record { occupied = b; request = q }, traffic)
    → Balanced (call (publish_call request) (record { occupied = b; request = q }, traffic))
unfolding call publish queued can_publish
publish-Balanced request true q traffic h = h
publish-Balanced request false q traffic h = ap (λ l. request ∷ l) h

take-Balanced :
    (b : Bool) (q : Request) (traffic : Traffic)
    → Balanced (record { occupied = b; request = q }, traffic)
    → Balanced (call take_call (record { occupied = b; request = q }, traffic))
unfolding call take_request queued
take-Balanced true q traffic h = h
take-Balanced false q traffic h = h

call-Balanced : (c : Call) (s : Slot × Traffic) → Balanced s → Balanced (call c s)
call-Balanced (publish_call request) (mailbox, traffic) h =
    publish-Balanced request mailbox.occupied mailbox.request traffic h
call-Balanced take_call (mailbox, traffic) h =
    take-Balanced mailbox.occupied mailbox.request traffic h

run-Balanced : (cs : List Call) (s : Slot × Traffic) → Balanced s → Balanced (run cs s)
unfolding run
run-Balanced [] s h = h
run-Balanced (c ∷ cs) s h = run-Balanced cs (call c s) (call-Balanced c s h)

-- From a reset mailbox, whatever the order of publishing and taking, the requests accepted are the
-- requests taken, in the same order, and after them the one that waits, if one does: none is lost,
-- replaced or taken twice.
pub mailbox_run :
    (cs : List Call) (mailbox : Slot)
    → let (mailbox', traffic) = run cs (reset mailbox, record { accepted = []; taken = [] }) in
      traffic.accepted ≡ queued mailbox' ++ traffic.taken
mailbox_run cs mailbox =
    run-Balanced cs (reset mailbox, record { accepted = []; taken = [] })
      (unfold reset queued in refl)

-- The claim of `mailbox_pending` at one slot.
abbrev IsExclusive : Slot → Request → ℕ → Type 0
IsExclusive m request port =
    (((publish m request).0 ≡ false) ↔ (queued m ≢ []))
    × (((take_request m request).0 ≡ true) ↔ (queued m ≢ []))
    × ((publish m request).0 ≡ true
        → (has_pending_port (publish m request).1 port ≡ true) ↔ (request.port_id ≡ port))
    × (has_pending_port (take_request m request).1 port ≡ false)

pending_at :
    (b : Bool) (q request : Request) (port : ℕ)
    → IsExclusive (record { occupied = b; request = q }) request port
unfolding publish take_request queued has_pending_port can_publish
pending_at true q request port = (ground arith, ground arith, λ h. ground arith, refl)
pending_at false q request port = (ground arith, ground arith, λ h. ground arith, refl)

-- A mailbox refuses a request just when one waits, and gives one just when one waits; a request
-- that it accepts is the pending one of its own port and of no other, and after a take no request
-- is pending for any port.
mailbox_pending :
    (mailbox : Slot) (request : Request) (port : ℕ)
    → (((publish mailbox request).0 ≡ false) ↔ (queued mailbox ≢ []))
      × (((take_request mailbox request).0 ≡ true) ↔ (queued mailbox ≢ []))
      × ((publish mailbox request).0 ≡ true
          → (has_pending_port (publish mailbox request).1 port ≡ true) ↔ (request.port_id ≡ port))
      × (has_pending_port (take_request mailbox request).1 port ≡ false)
mailbox_pending mailbox request port = pending_at mailbox.occupied mailbox.request request port

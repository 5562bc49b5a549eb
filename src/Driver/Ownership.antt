-- ===== src/Driver/Ownership.antt =====
-- Who holds a port's transmit side: the flag that blocks it is up while a request is with the USB
-- side, in the mailbox or with the worker, and it is up for no other reason than these and a stop.
pub mod Calls
pub mod Worker
pub mod Steps
use pico_uart.LineCoding.{LineCoding}
use pico_uart.Plane.{
  record_error, complete_error, set_worker_pending, finish_mailbox_control, end_worker_pending,
  finish_worker_control, publish_info, publish_applied, release_pending,
}
use pico_uart.Prelude.{
  false, refl, none, some, Option, not, ◌==◌, ◌||◌, if◌then◌else◌, true, arith, Bool, ◌≡◌, ℕ,
}
use pico_uart.Control.{
  has_pending_port, pending_should_clear, completion_is_current, apply_completion_error,
}
use pico_uart.Control.Flags.{has, raise, lower, raise_lem, lower_lem}
use pico_uart.Runtime.{ControlError, Clock, Port}
use pico_uart.Driver.{mark_control_pending}

abbrev pub blocked : {B : Type 0} → Port B → Bool
blocked port = has port.status_flags 8

abbrev pub requested : {B : Type 0} → Port B → Bool
requested port = port.soft_pending || port.mailbox.occupied || port.worker.pending

-- A request blocks the port, the mailbox has requests of its port only, and only a stop quiesces.
pub record IsHeld {B : Type 0} (port_id : ℕ) (port : Port B) : Type 0 where
  pub blocks : requested port ≡ true → blocked port ≡ true
  pub addressed : port.mailbox.occupied ≡ true → port.mailbox.request.port_id ≡ port_id
  pub quiesced : port.lifecycle.usb_quiesced ≡ true → port.lifecycle.stop_pending ≡ true

-- And a port is blocked for a request or a stop only.
pub record IsOwned {B : Type 0} (port_id : ℕ) (port : Port B) : Type 0 where
  pub held : IsHeld port_id port
  pub owner : blocked port ≡ true → (requested port || port.lifecycle.stop_pending) ≡ true

pub completion_flags :
    (f g l : ℕ) (success : Bool)
    → (has (apply_completion_error f 4 g l success) 8 ≡ has f 8)
      × (has (apply_completion_error f 4 g l success) 1 ≡ has f 1)
      × (has (apply_completion_error f 4 g l success) 2 ≡ has f 2)
      × (has (apply_completion_error f 4 g l success) 4 ≡ (if g == l then not success else has f 4))
unfolding apply_completion_error completion_is_current raise lower
completion_flags f g l success =
    let up = raise_lem f 4 in
    let down = lower_lem f 4 (omega arith) in
    (ground arith, ground arith, ground arith, ground arith)

-- The parts of the code's critical sections.
module _ {B : Type 0} {port_id : ℕ} {port : Port B} where
  pub release-IsOwned :
      (pending : Bool)
      → IsHeld port_id port
      → pending ≡ port.worker.pending
      → IsOwned port_id (release_pending port_id pending port)
  unfolding release_pending pending_should_clear has_pending_port
  release-IsOwned pending v e = ground (arith, lower_lem port.status_flags 8 (omega arith))

  pub complete-IsOwned :
      (g : ℕ) (success : Bool)
      → IsOwned port_id port
      → IsOwned port_id (complete_error g success port)
  unfolding complete_error
  complete-IsOwned g success v =
      ground (arith, completion_flags port.status_flags g port.control_generation success)

  pub complete-IsHeld :
      (g : ℕ) (success : Bool)
      → IsHeld port_id port
      → IsHeld port_id (complete_error g success port)
  unfolding complete_error
  complete-IsHeld g success v =
      ground (arith, completion_flags port.status_flags g port.control_generation success)

  pub end_worker-IsHeld : IsHeld port_id port → IsHeld port_id (end_worker_pending port)
  unfolding end_worker_pending
  end_worker-IsHeld v = ground arith

  pub record_error-IsHeld :
      (clock : Clock) (e : ControlError)
      → IsHeld port_id port
      → IsHeld port_id (record_error clock e port)
  unfolding record_error
  record_error-IsHeld clock e v = record {
    blocks = v.blocks;
    addressed = v.addressed;
    quiesced = v.quiesced;
  }

  pub publish_info-IsHeld :
      (c : LineCoding) → IsHeld port_id port → IsHeld port_id (publish_info c port)
  unfolding publish_info
  publish_info-IsHeld c v = record {
    blocks = v.blocks;
    addressed = v.addressed;
    quiesced = v.quiesced;
  }

  pub set_worker_pending-IsOwned :
      (g : ℕ) → IsHeld port_id port → IsOwned port_id (set_worker_pending g port)
  unfolding set_worker_pending
  set_worker_pending-IsOwned g v =
      ground (
        arith,
        raise_lem port.status_flags 8,
        lower_lem (raise port.status_flags 8) 4 (omega arith),
      )

module _ {B : Type 0} {port_id : ℕ} where
  pub when-IsHeld :
      (t : Bool) {p q : Port B}
      → IsHeld port_id p
      → IsHeld port_id q
      → IsHeld port_id (if t then p else q)
  when-IsHeld true v w = v
  when-IsHeld false v w = w

  pub when-IsOwned :
      (t : Bool) {p q : Port B}
      → IsOwned port_id p
      → IsOwned port_id q
      → IsOwned port_id (if t then p else q)
  when-IsOwned true v w = v
  when-IsOwned false v w = w

  pub test-IsOwned :
      (t : Bool) {p q : Port B}
      → IsOwned port_id p
      → (t ≡ false → IsOwned port_id q)
      → IsOwned port_id (if t then p else q)
  test-IsOwned true v w = v
  test-IsOwned false v w = w refl

  pub whose-IsOwned :
      {A : Type 0} (t : Bool) (p q : A × Port B)
      → IsOwned port_id p.1
      → IsOwned port_id q.1
      → IsOwned port_id (if t then p else q).1
  whose-IsOwned true p q v w = v
  whose-IsOwned false p q v w = w

  pub case-IsOwned :
      {A X : Type 0} (o : Option X) (p : A × Port B) (f : X → A × Port B)
      → IsOwned port_id p.1
      → ((x : X) → IsOwned port_id (f x).1)
      → IsOwned port_id (elim o as (λ _. A × Port B) [ none ↦ p | some x ↦ f x ]).1
  case-IsOwned none p f v w = v
  case-IsOwned (some x) p f v w = w x

  pub ops-IsOwned :
      {X : Type 0} (o : Option X) (p : Port B) (f : X → Port B)
      → IsOwned port_id p
      → ((x : X) → IsOwned port_id (f x))
      → IsOwned port_id (elim o as (λ _. Port B) [ none ↦ p | some x ↦ f x ])
  ops-IsOwned none p f v w = v
  ops-IsOwned (some x) p f v w = w x

  applied-IsHeld :
      (success : Bool) (applied : Option LineCoding) {port : Port B}
      → IsHeld port_id port
      → IsHeld port_id (publish_applied success applied port)
  unfolding publish_applied
  applied-IsHeld success none v = v
  applied-IsHeld success (some c) v = when-IsHeld success (publish_info-IsHeld c v) v

  pub finish_worker-IsOwned :
      (clock : Clock) (g : ℕ) (success : Bool) (applied : Option LineCoding) (e : ControlError)
      {port : Port B}
      → IsHeld port_id port
      → IsOwned port_id (finish_worker_control clock port_id g success applied e port)
  unfolding finish_worker_control end_worker_pending
  finish_worker-IsOwned clock g success applied e v =
      let w = applied-IsHeld success applied v in
      complete-IsOwned g success (
        release-IsOwned false
          (end_worker-IsHeld (when-IsHeld (not success) (record_error-IsHeld clock e w) w)) refl)

  pub finish_mailbox-IsOwned :
      (clock : Clock) (g : ℕ) (success drop : Bool) (wg : ℕ) (complete : Bool) (e : ControlError)
      {port : Port B}
      → IsHeld port_id port
      → IsOwned port_id (finish_mailbox_control clock port_id g success drop wg complete e port)
  unfolding finish_mailbox_control
  finish_mailbox-IsOwned clock g success drop wg complete e v =
      let w = when-IsHeld (not success) (record_error-IsHeld clock e v) v in
      let u = when-IsHeld (drop || complete) (end_worker-IsHeld w) w in
      complete-IsOwned g success
        (release-IsOwned _ (when-IsHeld complete (complete-IsHeld wg true u) u) refl)

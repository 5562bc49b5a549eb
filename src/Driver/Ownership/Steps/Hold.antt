-- ===== src/Driver/Ownership/Steps/Hold.antt =====
-- What the worker holds between two critical sections stays marked as its own.
use pico_uart.Control.{take_request, Request}
use pico_uart.Driver.Lifecycle.{consume_start, begin_stats_update}
use pico_uart.Plane.Service.{take_control, take_initial}
use pico_uart.Plane.{is_null_ops}
use pico_uart.Driver.{channel_stop_is_quiesced}
use pico_uart.Runtime.{Clock, Pending, Port}
use pico_uart.Prelude.{arith, if◌then◌else◌, ◌≡◌, Bool, ℕ, true, false}
use pico_uart.Prelude.{refl}
use pico_uart.Driver.Ownership.Steps.{
  Body, Worker, work, idle, stopping, starting, answering, launching, publishing, mailbox_body,
  deferred_body, lifecycle_body,
}

-- A request that the worker has taken and not answered is its pending one.
abbrev pub IsHolding : Pending → Worker → Type 0
IsHolding p (answering request prior) = p.pending ≡ true
IsHolding p (launching taken request previous) = taken ≡ true → p.pending ≡ true
IsHolding p idle = Unit
IsHolding p stopping = Unit
IsHolding p starting = Unit
IsHolding p (publishing ok) = Unit

answering-IsHolding :
    (t : Bool) (p : Pending) (request : Request) (prior : Bool)
    → (t ≡ true → p.pending ≡ true)
    → IsHolding p (if t then answering request prior else idle)
answering-IsHolding true p request prior h = h refl
answering-IsHolding false p request prior h = tt

starting-IsHolding : (t : Bool) (p : Pending) → IsHolding p (if t then starting else idle)
starting-IsHolding true p = tt
starting-IsHolding false p = tt

module _ {B : Type 0} (port_id : ℕ) where
  taken_pending :
      (port : Port B) → (take_control port).0 ≡ true → (take_control port).3.worker.pending ≡ true
  unfolding take_control take_request
  taken_pending port e = ground arith

  initial_pending :
      (port : Port B) → (take_initial port).0 ≡ true → (take_initial port).2.worker.pending ≡ true
  unfolding take_initial take_request
  initial_pending port e = ground arith

  either-IsHolding :
      (t : Bool) (p q : Port B × Worker)
      → IsHolding p.0.worker p.1
      → IsHolding q.0.worker q.1
      → IsHolding (if t then p else q).0.worker (if t then p else q).1
  either-IsHolding true p q v w = v
  either-IsHolding false p q v w = w

  pub work-IsHolding :
      (body : Body) (clock later : Clock) (port : Port B) (w : Worker)
      → IsHolding
          (work port_id body clock later port w).0.worker
          (work port_id body clock later port w).1
  unfolding work
  work-IsHolding mailbox_body clock later port idle =
      answering-IsHolding (take_control port).0 (take_control port).3.worker _ _
        (taken_pending port)
  work-IsHolding deferred_body clock later port idle = tt
  work-IsHolding lifecycle_body clock later port idle =
      either-IsHolding (channel_stop_is_quiesced port) _ _ tt
        (starting-IsHolding (consume_start port).0 (consume_start port).1.worker)
  work-IsHolding body clock later port (answering request prior) = tt
  work-IsHolding body clock later port stopping = tt
  work-IsHolding body clock later port starting =
      either-IsHolding (is_null_ops port.ops) _ _ tt (initial_pending (begin_stats_update port))
  work-IsHolding body clock later port (launching taken request previous) = tt
  work-IsHolding body clock later port (publishing ok) = tt

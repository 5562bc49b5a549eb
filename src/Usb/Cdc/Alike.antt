-- ===== src/Usb/Cdc/Alike.antt =====
-- What the driver's calls of a poll of firmware/src/usb/usb_cdc.c leave alone at the port: the
-- backend, and whether the port is ready.
use pico_uart.Prelude.{
  if◌then◌else◌, none, ◌||◌, sym, ◌&&◌, arith, ap, some, not, ap₂, by_option, false, refl, by_test,
  ◌≡◌, Option, Bool, ℕ, ◌∙◌,
}
use pico_uart.Control.{
  apply_reject_error, completion_is_current, can_publish, pending_should_clear, has_pending_port,
}
use pico_uart.Control.Flags.{status_control_error, has, raise, raise_lem, lower_lem}
use pico_uart.Driver.{
  set_status_flag, report_soft_pending_error, report_control_error, queue_line_coding,
  queue_accepted, publish_request, request_channel_start, port_is_ready, backend_is_initialized,
  acceptable,
}
use pico_uart.LineCoding.{LineCoding}
use pico_uart.Plane.{release_pending, record_error, is_null_ops}
use pico_uart.Ring.{Ring}
use pico_uart.Runtime.{other_error, Port, Ops, Clock, ControlError}

-- The same backend, with the same operations, and the same READY flag
abbrev pub IsAlike : {B : Type 0} → Port B → Port B → Type 0
IsAlike port later =
    (later.ops ≡ port.ops)
    × (later.backend ≡ port.backend)
    × (has later.status_flags 1 ≡ has port.status_flags 1)

module _ {B : Type 0} where
  pub refl-IsAlike : (port : Port B) → IsAlike port port
  refl-IsAlike port = (refl, refl, refl)

  pub trans-IsAlike : (p q r : Port B) → IsAlike p q → IsAlike q r → IsAlike p r
  trans-IsAlike p q r (o, b, f) (o', b', f') = (o' ∙ o, b' ∙ b, f' ∙ f)

  abbrev initialized_with : Option (Ops B) → B → Bool
  initialized_with none b = false
  initialized_with (some ops) b = ops.is_initialized b

  initialized_lem :
      (o : Option (Ops B)) (p : Port B)
      → p.ops ≡ o
      → backend_is_initialized p ≡ initialized_with o p.backend
  unfolding backend_is_initialized
  initialized_lem o p e =
      by_option (λ t. t ≡ initialized_with o p.backend) p.ops _ _
        (λ n. ap (λ x. initialized_with x p.backend) (sym n ∙ e))
        (λ ops n. ap (λ x. initialized_with x p.backend) (sym n ∙ e))

  pub ready_same : (p q : Port B) → IsAlike p q → port_is_ready q ≡ port_is_ready p
  unfolding port_is_ready
  ready_same p q (o, b, f) = ap₂ ◌&&◌ f (
      initialized_lem p.ops q o
      ∙ ap (initialized_with p.ops) b
      ∙ sym (initialized_lem p.ops p refl))

  release-IsAlike :
      (port_id : ℕ) (waits : Bool) (port : Port B)
      → IsAlike port (release_pending port_id waits port)
  unfolding release_pending
  release-IsAlike port_id waits port =
      by_test (IsAlike port)
        (pending_should_clear port.soft_pending (has_pending_port port.mailbox port_id) waits)
        (λ _. (refl, refl, (lower_lem port.status_flags 8 (omega arith)).0))
        (λ _. refl-IsAlike port)

  pub soft_error-IsAlike :
      (clock : Clock) (port_id generation : ℕ) (reason : ControlError) (port : Port B)
      → IsAlike port (report_soft_pending_error clock port_id generation reason port)
  unfolding report_soft_pending_error record_error set_status_flag
  soft_error-IsAlike clock port_id generation reason port =
      let p1 = record (record_error clock reason port) { soft_pending = false } in
      let p2 =
        if completion_is_current generation p1.control_generation
        then set_status_flag status_control_error p1
        else p1 in
      let h : IsAlike port p2 =
        by_test (IsAlike port) (completion_is_current generation port.control_generation)
          (λ _. (refl, refl, (raise_lem port.status_flags 4).0)) (λ _. (refl, refl, refl)) in
      trans-IsAlike port p2 (release_pending port_id p2.worker.pending p2) h
        (release-IsAlike port_id p2.worker.pending p2)

  pub control_error-IsAlike :
      (clock : Clock) (reason : ControlError) (port : Port B)
      → IsAlike port (report_control_error clock reason port)
  unfolding report_control_error record_error apply_reject_error raise
  control_error-IsAlike clock reason port = (refl, refl, (raise_lem port.status_flags 4).0)

  pub start-IsAlike :
      (started : Bool) (port : Port B) → IsAlike port (request_channel_start started port).1
  unfolding request_channel_start
  start-IsAlike started port =
      by_test (λ (r : Bool × Port B). IsAlike port r.1) (not started || is_null_ops port.ops)
        (λ _. (refl, refl, refl)) (λ _. (refl, refl, refl))

  publish-IsAlike :
      (port_id generation : ℕ) (c : LineCoding) (ring : Ring) (port : Port B)
      → IsAlike port (publish_request port_id c generation ring port).1
  unfolding publish_request
  publish-IsAlike port_id generation c ring port =
      by_test (λ (r : Bool × Port B). IsAlike port r.1) (not (can_publish port.mailbox))
        (λ _. (refl, refl, refl)) (λ _. (refl, refl, (raise_lem port.status_flags 8).0))

  accepted-IsAlike :
      (port_id generation : ℕ) (c : LineCoding) (port : Port B)
      → IsAlike port (queue_accepted port_id c generation port).1
  unfolding queue_accepted
  accepted-IsAlike port_id generation c port =
      let P : Bool × Port B → Type 0 = λ r. IsAlike port r.1 in
      by_option P port.ops _ _ (λ _. refl-IsAlike port)
        (λ ops _.
          by_option P (ops.tx_ring port.backend) _ _ (λ _. refl-IsAlike port)
            (λ ring _. publish-IsAlike port_id generation c ring port))

  pub queue-IsAlike :
      (started : Bool) (clock : Clock) (port_id generation : ℕ) (c : LineCoding) (port : Port B)
      → IsAlike port (queue_line_coding started clock port_id c generation port).1
  unfolding queue_line_coding
  queue-IsAlike started clock port_id generation c port =
      let P : Bool × Port B → Type 0 = λ r. IsAlike port r.1 in
      by_test P (not started) (λ _. refl-IsAlike port)
        (λ _.
          by_test P (not (acceptable port c)) (λ _. control_error-IsAlike clock other_error port)
            (λ _. accepted-IsAlike port_id generation c port))

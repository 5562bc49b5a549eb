-- ===== src/Plane/Flags.antt =====
-- The status flags that the end of a worker's request leaves: `uart_control_plane_finish_worker_control`
-- of firmware/src/uart/control/plane.c.
use pico_uart.LineCoding.{LineCoding}
use pico_uart.Runtime.{ControlError, Clock, Port}
use pico_uart.Control.{has_pending_port, pending_should_clear}
use pico_uart.Plane.{
  end_worker_pending, record_error, publish_info, publish_applied, finish_worker_control,
  release_pending, complete_error,
}
use pico_uart.Prelude.{
  ◌||◌, ◌&&◌, Option, not, ◌==◌, if◌then◌else◌, ◌≡◌, arith, Bool, ℕ, true, false, none, some,
}
use pico_uart.Control.Flags.{has, lower, lower_lem}
use pico_uart.Driver.Ownership.{completion_flags}

-- The claim of `finish_flags`, of the port `p` that is left
abbrev FlagsAfter : {B : Type 0} → ℕ → ℕ → Bool → Port B → Port B → Type 0
FlagsAfter port_id g success port p =
    (has p.status_flags 1 ≡ has port.status_flags 1)
    × (has p.status_flags 2 ≡ has port.status_flags 2)
    × (has p.status_flags 4
        ≡ (if g == port.control_generation then not success else has port.status_flags 4))
    × (has p.status_flags 8
        ≡ (has port.status_flags 8 && (port.soft_pending || has_pending_port port.mailbox port_id)))

module _ {B : Type 0} (port_id g : ℕ) where
  release_flags :
      (success : Bool) (p : Port B)
      → FlagsAfter port_id g success p (complete_error g success (release_pending port_id false p))
  unfolding complete_error release_pending pending_should_clear
  release_flags success p =
      let down = lower_lem p.status_flags 8 (omega arith) in
      let kept = completion_flags p.status_flags g p.control_generation success in
      let lost = completion_flags (lower p.status_flags 8) g p.control_generation success in
      ground arith

-- The end of the worker's request of generation `g` sets CONTROL_ERROR to the outcome if `g` is the
-- port's present generation, and leaves it alone if a newer request has come; it never touches READY
-- and INIT_FAILED; and CONTROL_PENDING stays up only if it was up and a soft request or one in the
-- mailbox still waits.
pub finish_flags :
    {B : Type 0} (port_id g : ℕ) (clock : Clock) (success : Bool) (applied : Option LineCoding)
    (e : ControlError) (port : Port B)
    → let p = finish_worker_control clock port_id g success applied e port in
      (has p.status_flags 1 ≡ has port.status_flags 1)
      × (has p.status_flags 2 ≡ has port.status_flags 2)
      × (has p.status_flags 4
          ≡ (if g == port.control_generation then not success else has port.status_flags 4))
      × (has p.status_flags 8 ≡ (
          has port.status_flags 8 && (port.soft_pending || has_pending_port port.mailbox port_id)))
unfolding finish_worker_control publish_applied publish_info record_error end_worker_pending
finish_flags port_id g clock true none e port = release_flags port_id g true _
finish_flags port_id g clock false none e port = release_flags port_id g false _
finish_flags port_id g clock true (some c) e port = release_flags port_id g true _
finish_flags port_id g clock false (some c) e port = release_flags port_id g false _

-- ===== src/Driver/Starts.antt =====
-- Whether a port can start: the chain of calls of the backend in `uart_control_plane_start_port` of
-- firmware/src/uart/control/plane.c, against its condition.
use pico_uart.Control.{zero_request, take_request, Slot, Request}
use pico_uart.Runtime.{Ops, Clock, Port}
use pico_uart.Prelude.{
  refl, ◌==◌, none, ap, arith, ◌∙◌, ◌||◌, some, by_option, by_test, false, Option, not, ◌&&◌,
  if◌then◌else◌, true, ◌≡◌, Bool, ℕ, add32, sym,
}
use pico_uart.LineCoding.{is_valid, LineCoding}
use pico_uart.Plane.{is_null_ops}
use pico_uart.Plane.Service.{take_initial, start_backend, start_taken, start_port, try_start}
use pico_uart.Driver.Lifecycle.{start_channel, begin_stats_update}

-- Whether the backend can start with the settings `c`: it allows them, takes them and restarts.
abbrev backend_starts : {B : Type 0} → Ops B → LineCoding → B → Bool
backend_starts ops c b =
    is_valid c
    && ops.line_coding_acceptable c
    && (ops.set_line_coding b c).1
    && (ops.restart (ops.set_line_coding b c).0).1

-- Whether the port can start, with a request of its mailbox, or with its own settings
abbrev starts_with : {B : Type 0} → ℕ → Bool → Request → LineCoding → Option (Ops B) → B → Bool
starts_with port_id taken request own none b = false
starts_with port_id taken request own (some ops) b =
    (not taken || request.port_id == port_id)
    && backend_starts ops (if taken then request.line_coding else own) b

abbrev pub can_start : {B : Type 0} → ℕ → Port B → Bool
can_start port_id port =
    starts_with port_id port.mailbox.occupied port.mailbox.request port.info.line_coding port.ops
      port.backend

own_lem : (a b : Bool) → a ≡ true → b ≡ (a && b)
own_lem a b f = ground arith

other_lem : (a b : Bool) → a ≡ false → false ≡ (a && b)
other_lem a b f = ground arith

to_false : {a : Bool} → not a ≡ true → false ≡ a
to_false f = ground arith

to_true : {a : Bool} → not a ≡ false → true ≡ a
to_true f = ground arith

module _ {B : Type 0} where
  start_backend_lem :
      (ops : Ops B) (c : LineCoding) (p : Port B)
      → (start_backend ops c p).0 ≡ backend_starts ops c p.backend
  unfolding start_backend
  start_backend_lem ops c p =
      let P : Bool × Port B → Type 0 = λ r. r.0 ≡ backend_starts ops c p.backend in
      by_test P (not (is_valid c) || not (ops.line_coding_acceptable c)) (λ f. ground arith)
        (λ g.
          by_test P (not (ops.set_line_coding p.backend c).1) (λ f. ground arith)
            (λ f. ground arith))

  try_start_lem :
      (port_id : ℕ) (taken : Bool) (request : Request) (own : LineCoding) (p : Port B)
      → (try_start port_id taken request (if taken then request.line_coding else own) p).0
        ≡ starts_with port_id taken request own p.ops p.backend
  unfolding try_start
  try_start_lem port_id taken request own p =
      let c = if taken then request.line_coding else own in
      let S = λ (o : Option (Ops B)). starts_with port_id taken request own o p.backend in
      by_option (λ (r : Bool × Port B). r.0 ≡ S p.ops) p.ops _ _ (λ e. ap S (sym e))
        (λ ops e.
          by_test (λ (r : Bool × Port B). r.0 ≡ S (some ops))
            (not taken || request.port_id == port_id)
            (λ f. start_backend_lem ops c p ∙ own_lem _ _ f) (λ f. other_lem _ _ f)
          ∙ ap S (sym e))

  null_starts :
      (port_id : ℕ) (taken : Bool) (request : Request) (own : LineCoding) (o : Option (Ops B))
      (b : B)
      → is_null_ops o ≡ true
      → false ≡ starts_with port_id taken request own o b
  null_starts port_id taken request own none b e = refl
  null_starts port_id taken request own (some ops) b e = absurd (ground arith)

  pub channel_starts :
      (clock : Clock) (port_id : ℕ) (port : Port B)
      → (start_channel clock port_id port).0 ≡ can_start port_id port
  unfolding start_channel start_port take_initial take_request start_taken begin_stats_update
  channel_starts clock port_id port =
      let request = port.mailbox.request in
      let own = port.info.line_coding in
      by_test (λ (r : Bool × Port B). r.0 ≡ can_start port_id port) (is_null_ops port.ops)
        (null_starts port_id port.mailbox.occupied request own port.ops port.backend)
        (λ _.
          by_test
            (λ (t : Bool × Slot × Request).
              (try_start port_id t.0 t.2 (if t.0 then t.2.line_coding else own) (record port {
                stats_sequence = add32 port.stats_sequence 1;
                mailbox = t.1;
                worker =
                    if t.0
                    then record port.worker {
                      pending = true;
                      control_generation = t.2.control_generation;
                    }
                    else port.worker;
              })).0
              ≡ can_start port_id port)
            (not port.mailbox.occupied)
            (λ f.
              try_start_lem port_id false zero_request own _
              ∙ ap (λ t. starts_with port_id t request own port.ops port.backend) (to_false f))
            (λ f.
              try_start_lem port_id true request own _
              ∙ ap (λ t. starts_with port_id t request own port.ops port.backend) (to_true f)))

-- ===== src/Driver/Start/Rest.antt =====
-- After `uart_driver_init` of firmware/src/uart/uart_driver.c every port is at rest.
use pico_uart.Control.Flags.{lower, raise_lem, lower_lem, has}
use pico_uart.Driver.{backend_is_initialized, port_is_ready, set_status_flag, clear_status_flag}
use pico_uart.Control.{reset}
use pico_uart.Prelude.{
  some, ap, none, Bool, arith, not, by_test, ℕ, by_option, refl, [], false, ◌≡◌, Option, ◌∷◌, List,
}
use pico_uart.Runtime.{PortInfo, Ops, BackendKind, Port}
use pico_uart.Driver.Start.{
  init, load_port, map, start_init, load_ports, close_port, rollback_port, init_backend,
  init_backends, reset_port, State,
}
use pico_uart.Driver.Ownership.Steps.{IsQuiet}

abbrev pub AllPorts : {B : Type 0} → (Port B → Type 0) → List (Port B) → Type 0
AllPorts P [] = Unit
AllPorts P (port ∷ ports) = P port × AllPorts P ports

-- No request, stop or start, and not ready
abbrev IsResting : {B : Type 0} → Port B → Type 0
IsResting port = IsQuiet port × (port_is_ready port ≡ false)

module _ {B : Type 0} where
  AllPorts-map :
      (P Q : Port B → Type 0) (f : Port B → Port B)
      → ((port : Port B) → P port → Q (f port))
      → (ports : List (Port B)) → AllPorts P ports
      → AllPorts Q (map f ports)
  AllPorts-map P Q f h [] v = tt
  AllPorts-map P Q f h (port ∷ ports) (v, w) = (h port v, AllPorts-map P Q f h ports w)

  loaded-IsQuiet :
      (ops_for_type : BackendKind → Option (Ops B)) (b : PortInfo) (port : Port B)
      → IsQuiet (reset_port b (load_port ops_for_type b port))
  unfolding reset_port reset has
  loaded-IsQuiet ops_for_type b port = record {
    none_requested = refl;
    not_blocked = refl;
    not_stopping = refl;
    not_quiesced = refl;
  }

  load_ports-IsQuiet :
      (ops_for_type : BackendKind → Option (Ops B)) (board : List PortInfo) (ports : List (Port B))
      → AllPorts IsQuiet (load_ports ops_for_type board ports)
  unfolding load_ports
  load_ports-IsQuiet ops_for_type [] ports = tt
  load_ports-IsQuiet ops_for_type (b ∷ board) [] = tt
  load_ports-IsQuiet ops_for_type (b ∷ board) (port ∷ ports) =
      (loaded-IsQuiet ops_for_type b port, load_ports-IsQuiet ops_for_type board ports)

  backend-IsQuiet : (b : B) (port : Port B) → IsQuiet port → IsQuiet (record port { backend = b })
  backend-IsQuiet b port q = record {
    none_requested = q.none_requested;
    not_blocked = q.not_blocked;
    not_stopping = q.not_stopping;
    not_quiesced = q.not_quiesced;
  }

  flags-IsQuiet :
      (f : ℕ) (port : Port B)
      → IsQuiet port
      → has f 8 ≡ false
      → IsQuiet (record port { status_flags = f })
  flags-IsQuiet f port q e = record {
    none_requested = q.none_requested;
    not_blocked = e;
    not_stopping = q.not_stopping;
    not_quiesced = q.not_quiesced;
  }

  init_backend-IsQuiet : (port : Port B) → IsQuiet port → IsQuiet (init_backend port).1
  unfolding init_backend start_init set_status_flag clear_status_flag
  init_backend-IsQuiet port q =
      let P : Bool × Port B → Type 0 = λ r. IsQuiet r.1 in
      let r : IsQuiet (start_init port).1 =
        by_option P port.ops _ _ (λ e. q) (λ ops e. backend-IsQuiet _ port q) in
      let g = (start_init port).1.status_flags in
      by_test P (not (start_init port).0)
        (λ t.
          flags-IsQuiet _ _ r
            (ground (arith, lower_lem g 1 (omega arith), raise_lem (lower g 1) 2)))
        (λ t.
          flags-IsQuiet _ _ r
            (ground (arith, lower_lem g 6 (omega arith), raise_lem (lower g 6) 1)))

  init_backends-IsQuiet :
      (ports : List (Port B)) → AllPorts IsQuiet ports → AllPorts IsQuiet (init_backends ports).1
  unfolding init_backends
  init_backends-IsQuiet [] v = tt
  init_backends-IsQuiet (port ∷ ports) (v, w) =
      (init_backend-IsQuiet port v, init_backends-IsQuiet ports w)

  rollback-IsResting : (port : Port B) → IsQuiet port → IsResting (rollback_port port)
  unfolding rollback_port has port_is_ready
  rollback-IsResting port q =
      by_option IsResting port.ops _ _ (λ e. (flags-IsQuiet 0 port q (refl), refl))
        (λ ops e. (flags-IsQuiet 0 _ (backend-IsQuiet _ port q) (refl), refl))

  none_ready : (port : Port B) → port.ops ≡ none → port_is_ready port ≡ false
  unfolding port_is_ready backend_is_initialized
  none_ready port e =
      let h : backend_is_initialized port ≡ false =
        ap
          (λ (o : Option (Ops B)). elim o as (λ _. Bool) [
            | none ↦ false
            | some ops ↦ ops.is_initialized port.backend
          ])
          e in
      ground arith

  close-IsResting : (port : Port B) → IsQuiet port → IsResting (close_port port)
  unfolding close_port clear_status_flag port_is_ready
  close-IsResting port q =
      by_option IsResting port.ops _ _ (λ e. (q, none_ready port e))
        (λ ops e. (
          flags-IsQuiet (lower port.status_flags 1) _ (backend-IsQuiet _ port q)
              (ground (arith, lower_lem port.status_flags 1 (omega arith), q.not_blocked)),
          ground (arith, lower_lem port.status_flags 1 (omega arith)),
        ))

-- The claim of `init_at_rest`.
record IsRested {B : Type 0} (r : Bool × State B) : Type 0 where
  launched : r.1.worker_started ≡ r.0
  first : r.1.poll_start_index ≡ 0
  resting : AllPorts IsResting r.1.ports

init-IsRested :
    {B : Type 0} (ops_for_type : BackendKind → Option (Ops B)) (board : List PortInfo)
    (state : State B)
    → state.worker_started ≡ false
    → IsRested (init ops_for_type board state)
unfolding init
init-IsRested ops_for_type board state e =
    let v = init_backends-IsQuiet _ (load_ports-IsQuiet ops_for_type board state.ports) in
    by_test IsRested state.worker_started (λ t. absurd (ground arith))
      (λ f.
        by_test IsRested (not (init_backends (load_ports ops_for_type board state.ports)).0)
          (λ _. record {
            launched = e;
            first = refl;
            resting = AllPorts-map _ _ rollback_port rollback-IsResting _ v;
          })
          (λ _. record {
            launched = refl;
            first = refl;
            resting = AllPorts-map _ _ close_port close-IsResting _ v;
          }))

-- A driver whose worker has not started, and the board's ports: the start launches the worker just
-- when it reports success. Whether it does or not, it leaves every port at rest: no request is soft
-- pending, in the mailbox or with the worker, the transmit side is not blocked, no stop is asked for,
-- and no port is ready before the USB side starts it; the next round begins at the first port.
pub init_at_rest :
    {B : Type 0} (ops_for_type : BackendKind → Option (Ops B)) (board : List PortInfo)
    (state : State B)
    → state.worker_started ≡ false
    → let (ok, state') = init ops_for_type board state in
      (state'.worker_started ≡ ok)
      × (state'.poll_start_index ≡ 0)
      × AllPorts (λ port. IsQuiet port × (port_is_ready port ≡ false)) state'.ports
init_at_rest ops_for_type board state e =
    let r = init-IsRested ops_for_type board state e in (r.launched, r.first, r.resting)

-- ===== src/Driver/Outcome.antt =====
-- What the worker's round of `uart_driver_service_channel_lifecycle` makes of a stop and of a start
-- that core 0 asked for, in its last section.
use pico_uart.Control.Flags.{raise, raise_lem, lower, has, lower_lem}
use pico_uart.Prelude.{
  ap₂, Bool, add32, by_option, sym, ap, not, ◌∙◌, by_test, true, subst, ℕ, Option, refl, ◌&&◌,
  if◌then◌else◌, arith, false, ◌||◌, some, ◌≡◌, none,
}
use pico_uart.Control.{reset}
use pico_uart.Runtime.{Ops, Clock, Port}
use pico_uart.Driver.Lifecycle.{
  publish_started, consume_start, end_stats_update, begin_stats_update, stop_backend, reset_stopped,
  service_lifecycle, service_start,
}

-- The backend after a stop
abbrev deinit_backend : {B : Type 0} → Option (Ops B) → B → B
deinit_backend none backend = backend
deinit_backend (some ops) backend =
    if ops.is_initialized backend then ops.deinit backend else backend

abbrev pub stopped_backend : {B : Type 0} → Port B → B
stopped_backend port = deinit_backend port.ops port.backend

-- What a stop leaves
record IsStopped {B : Type 0} (port p : Port B) : Type 0 where
  backend : p.backend ≡ stopped_backend port
  no_request : (p.mailbox.occupied || p.worker.pending) ≡ false
  no_stop : (p.lifecycle.stop_pending || p.lifecycle.usb_quiesced) ≡ false
  not_ready : has p.status_flags 1 ≡ false
  not_failed : has p.status_flags 2 ≡ false
  blocked : has p.status_flags 8 ≡ (port.soft_pending && has port.status_flags 8)

-- What the backend's part of a stop leaves alone
record Kept {B : Type 0} (port p : Port B) : Type 0 where
  backend : p.backend ≡ stopped_backend port
  flags : p.status_flags ≡ port.status_flags
  soft : p.soft_pending ≡ port.soft_pending
  start : p.lifecycle.start_pending ≡ port.lifecycle.start_pending

module _ {B : Type 0} where
  closed-Kept :
      (port : Port B) (b : B) (n : ℕ)
      → b ≡ stopped_backend port
      → Kept port (record port { backend = b; stats_sequence = n })
  closed-Kept port b n e = record { backend = e; flags = refl; soft = refl; start = refl }

  stop_backend-Kept : (port : Port B) → Kept port (stop_backend port)
  unfolding stop_backend begin_stats_update end_stats_update
  stop_backend-Kept port =
      let kept =
        λ (o : Option (Ops B)) (e : port.ops ≡ o) (b : B) (n : ℕ)
            (d : b ≡ deinit_backend o port.backend).
          closed-Kept port b n (d ∙ ap (λ x. deinit_backend x port.backend) (sym e)) in
      by_option (Kept port) port.ops _ _ (λ e. kept none e port.backend port.stats_sequence refl)
        (λ ops e.
          by_test (Kept port) (ops.is_initialized port.backend)
            (λ t.
              kept (some ops) e (ops.deinit port.backend) (add32 (add32 port.stats_sequence 1) 1)
                (ap (λ x. if x then ops.deinit port.backend else port.backend) (sym t)))
            (λ f.
              kept (some ops) e port.backend port.stats_sequence
                (ap (λ x. if x then ops.deinit port.backend else port.backend) (sym f))))

  reset-IsStopped : (port p : Port B) → Kept port p → IsStopped port (reset_stopped p)
  unfolding reset_stopped reset
  reset-IsStopped port p k =
      let down = lower_lem p.status_flags 3 (omega arith) in
      let low = lower_lem (lower p.status_flags 3) 8 (omega arith) in
      let b : has (reset_stopped p).status_flags 8 ≡ (p.soft_pending && has p.status_flags 8) =
        ground arith in
      record {
        backend = k.backend;
        no_request = refl;
        no_stop = refl;
        not_ready = ground arith;
        not_failed = ground arith;
        blocked = b ∙ ap₂ (λ t f. t && has f 8) k.soft k.flags;
      }

  no_start : (p : Port B) → p.lifecycle.start_pending ≡ false → consume_start p ≡ (false, p)
  unfolding consume_start
  no_start p e =
      by_test (λ r. r ≡ (false, p)) (not p.lifecycle.start_pending || p.lifecycle.stop_pending)
        (λ t. refl) (λ f. absurd (ground arith))

  unstarted :
      (clock : Clock) (port_id : ℕ) (p : Port B)
      → p.lifecycle.start_pending ≡ false
      → service_start clock port_id p ≡ p
  unfolding service_start
  unstarted clock port_id p e = rw (no_start p e) refl

  service-IsStopped :
      (clock : Clock) (port_id : ℕ) (port : Port B)
      → port.lifecycle.stop_pending ≡ true
      → port.lifecycle.usb_quiesced ≡ true
      → port.lifecycle.start_pending ≡ false
      → IsStopped port (service_lifecycle clock port_id port)
  unfolding service_lifecycle reset_stopped
  service-IsStopped clock port_id port s u n =
      by_test (IsStopped port) (not port.lifecycle.stop_pending && not port.lifecycle.start_pending)
        (λ t. absurd (ground arith))
        (λ _.
          by_test (IsStopped port) (port.lifecycle.stop_pending && not port.lifecycle.usb_quiesced)
            (λ t. absurd (ground arith))
            (λ _.
              let r = reset_stopped (stop_backend port) in
              let k = stop_backend-Kept port in
              subst (λ x. IsStopped port (service_start clock port_id x))
                (ap (λ t. if t then r else port) (sym s))
                (subst (IsStopped port) (sym (unstarted clock port_id r (k.start ∙ n)))
                  (reset-IsStopped port _ k))))

  pub started_flags :
      (ok : Bool) (p : Port B)
      → p.lifecycle.stop_pending ≡ false
      → p.lifecycle.start_pending ≡ false
      → (has (publish_started ok p).status_flags 1 ≡ ok)
        × (has (publish_started ok p).status_flags 2 ≡ not ok)
  unfolding publish_started
  started_flags ok p s n =
      let down = lower_lem p.status_flags 2 (omega arith) in
      let up = raise_lem (lower p.status_flags 2) 1 in
      let up2 = raise_lem p.status_flags 2 in
      let down1 = lower_lem (raise p.status_flags 2) 1 (omega arith) in (ground arith, ground arith)

-- A port that is asked to stop, not to start again, and whose USB side is quiet: the worker's round
-- shuts the backend down if it runs, drops the request in the mailbox and the worker's own, takes the
-- stop back, and leaves the port neither ready nor failed; its transmit side stays blocked only if
-- it was and a soft request is pending.
pub service_stop :
    {B : Type 0} (clock : Clock) (port_id : ℕ) (port : Port B)
    → port.lifecycle.stop_pending ≡ true
    → port.lifecycle.usb_quiesced ≡ true
    → port.lifecycle.start_pending ≡ false
    → let p = service_lifecycle clock port_id port in
      (p.backend ≡ stopped_backend port)
      × ((p.mailbox.occupied || p.worker.pending) ≡ false)
      × ((p.lifecycle.stop_pending || p.lifecycle.usb_quiesced) ≡ false)
      × (has p.status_flags 1 ≡ false)
      × (has p.status_flags 2 ≡ false)
      × (has p.status_flags 8 ≡ (port.soft_pending && has port.status_flags 8))
service_stop clock port_id port s u n =
    let v = service-IsStopped clock port_id port s u n in
    (v.backend, v.no_request, v.no_stop, v.not_ready, v.not_failed, v.blocked)

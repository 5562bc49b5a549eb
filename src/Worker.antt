-- ===== src/Worker.antt =====
-- The worker core's sweep and its heartbeat: firmware/src/uart/worker.c and worker.h. The hooks are
-- functions on the state of the driver, a parameter here; `uart_worker_run` is the endless loop
-- around the sweep.
pub mod Heartbeat
mod Tests
use pico_uart.Prelude.{sub32, true, ◌!=◌, ltb, false, ◌==◌, leb, if◌then◌else◌, add32, Bool, ℕ}

-- `UART_WORKER_HEARTBEAT_STALE_MS`
abbrev pub heartbeat_stale_ms : ℕ
heartbeat_stale_ms = 2000

-- The driver's state and the heartbeat counter.
unfoldable pub worker_step {ℓ} : {S : Type ℓ} → (S → S) → (S → S) → S × ℕ → S × ℕ
worker_step service_control poll_io (s, heartbeat) =
    (poll_io (service_control s), add32 heartbeat 1)

-- `last_heartbeat` and `last_change_ms`
pub record Watch : Type 0 where
  pub last_heartbeat : ℕ
  pub last_change_ms : ℕ

-- The two sides of the last test are signed: a difference from 2^31 on is a negative number.
unfoldable pub signed_less : ℕ → ℕ → Bool
signed_less a b =
    if leb 0x8000_0000 a
    then (if leb 0x8000_0000 b then ltb a b else true)
    else (if leb 0x8000_0000 b then false else ltb a b)

unfoldable pub heartbeat_is_fresh : ℕ → Watch → ℕ → ℕ → Bool × Watch
heartbeat_is_fresh heartbeat w now_ms stale_ms =
    if stale_ms == 0
    then (false, w)
    else if heartbeat != w.last_heartbeat
    then (true, record { last_heartbeat = heartbeat; last_change_ms = now_ms })
    else (signed_less (sub32 now_ms w.last_change_ms) stale_ms, w)

-- ===== src/Worker/Heartbeat.antt =====
-- A running worker is seen as fresh and a stopped one is not.
use pico_uart.Prelude.{◌∙◌, ◌↔◌, true, arith, ◌+◌, add32, ◌≡◌, u32, u32_mod, zero, ◌<◌, suc, ℕ}
use pico_uart.Worker.{worker_step, Watch, heartbeat_is_fresh, signed_less}

-- `n` sweeps.
unfoldable pub worker_steps {ℓ} : {S : Type ℓ} → (S → S) → (S → S) → ℕ → S × ℕ → S × ℕ
worker_steps service_control poll_io zero s = s
worker_steps service_control poll_io (suc n) s =
    worker_steps service_control poll_io n (worker_step service_control poll_io s)

steps_heartbeat {ℓ} :
    {S : Type ℓ} (service_control poll_io : S → S) (n : ℕ) (s : S) (heartbeat : ℕ)
    → heartbeat < u32_mod
    → (worker_steps service_control poll_io n (s, heartbeat)).1 ≡ add32 heartbeat n
unfolding worker_steps worker_step
steps_heartbeat service_control poll_io zero s heartbeat h = omega arith
steps_heartbeat service_control poll_io (suc n) s heartbeat h =
    steps_heartbeat service_control poll_io n (poll_io (service_control s)) (add32 heartbeat 1)
      (omega arith)
    ∙ omega arith

-- A core that watches the worker, which has made `n` sweeps since the counter was last seen to
-- change at `since`, at most 2^31 ms before: where it has made some it is fresh, and where it has
-- made none it is fresh just while fewer than `stale` milliseconds have passed. The times are the
-- low 32 bits of the clock's.
pub heartbeat_lem :
    {S : Type 0} (service_control poll_io : S → S) (s : S) (n heartbeat since waited stale : ℕ)
    → heartbeat < u32_mod
    → n < u32_mod
    → 0 < stale
    → stale < 0x8000_0000
    → waited < 0x8000_0000
    → let now = (worker_steps service_control poll_io n (s, heartbeat)).1 in
      let w : Watch = record { last_heartbeat = heartbeat; last_change_ms = u32 since } in
      let (fresh, w') = heartbeat_is_fresh now w (u32 (since + waited)) stale in
      (0 < n → fresh ≡ true)
      × (n ≡ 0 → (fresh ≡ true) ↔ (waited < stale))
      × (w'.last_heartbeat ≡ now)
heartbeat_lem service_control poll_io s n heartbeat since waited stale a b c d e =
    rw (steps_heartbeat service_control poll_io n s heartbeat a) (
      unfold heartbeat_is_fresh signed_less in (λ p. ground arith, λ z. ground arith, ground arith))

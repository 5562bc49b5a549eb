-- ===== src/Worker/Tests.antt =====
-- A worker that counts its sweeps, across the end of the counter.
use pico_uart.Worker.Heartbeat.{heartbeat_lem, worker_steps}
use pico_uart.Prelude.{ℕ, ◌↔◌, true, ◌<◌, ◌+◌, u32, suc, ◌≡◌, arith}
use pico_uart.Worker.{Watch, heartbeat_is_fresh}

abbrev three : ℕ
three = 3

heartbeat_lem_example :
    let now = (worker_steps suc suc 3 (0, 0xffff_ffff)).1 in
    let w : Watch = record { last_heartbeat = 0xffff_ffff; last_change_ms = u32 0xffff_fff0 } in
    let (fresh, w') = heartbeat_is_fresh now w (u32 (0xffff_fff0 + 2500)) 2000 in
    (0 < 3 → fresh ≡ true)
    × (three ≡ 0 → (fresh ≡ true) ↔ (2500 < 2000))
    × (w'.last_heartbeat ≡ now)
heartbeat_lem_example =
    heartbeat_lem suc suc 0 3 0xffff_ffff 0xffff_fff0 2500 2000 (omega arith) (omega arith)
      (omega arith) (omega arith) (omega arith)

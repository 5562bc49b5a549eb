-- ===== src/Platform/ServiceLoad.antt =====
-- The load of one core's service loop: firmware/src/platform/service_load.c, without the profiling
-- build's maxima. The two cores' windows are independent; this is one of them.
pub mod Ratio
use pico_uart.Prelude.{
  ◌/◌, ◌*◌, u32, leb, sub32, ◌+◌, Bool, u64, not, u16, true, false, ℕ, if◌then◌else◌,
}

-- `SERVICE_LOAD_WINDOW_US`
abbrev pub window_us : ℕ
window_us = 1000000

-- `SERVICE_LOAD_UNAVAILABLE`
abbrev pub unavailable : ℕ
unavailable = 0xffff

-- `service_load_core_t`
pub record Core : Type 0 where
  pub window_start : ℕ
  pub pass_start : ℕ
  pub busy_us : ℕ
  pub started : Bool
  pub measuring : Bool
  pub worked : Bool
  pub published : ℕ

unfoldable pub init : Core → Core
init core = record {
  window_start = core.window_start;
  pass_start = core.pass_start;
  busy_us = 0;
  started = false;
  measuring = false;
  worked = false;
  published = unavailable;
}

unfoldable pub begin_pass : ℕ → Core → Core
begin_pass now_us core = record {
  window_start = if not core.started then now_us else core.window_start;
  pass_start = now_us;
  busy_us = core.busy_us;
  started = true;
  measuring = true;
  worked = false;
  published = core.published;
}

unfoldable pub note : Core → Core
note core = record {
  window_start = core.window_start;
  pass_start = core.pass_start;
  busy_us = core.busy_us;
  started = core.started;
  measuring = core.measuring;
  worked = if core.measuring then true else core.worked;
  published = core.published;
}

unfoldable pub end_pass : ℕ → Core → Core
end_pass now_us core =
    let busy_us =
      if core.worked then u64 (core.busy_us + sub32 now_us core.pass_start) else core.busy_us in
    let elapsed = sub32 now_us core.window_start in
    let closes = leb window_us elapsed in
    record {
      window_start = if closes then now_us else core.window_start;
      pass_start = core.pass_start;
      busy_us = if closes then 0 else busy_us;
      started = core.started;
      measuring = false;
      worked = core.worked;
      published = if closes then u32 (u64 (busy_us * 10000) / elapsed) else core.published;
    }

unfoldable pub read_load : Core → ℕ
read_load core = u16 core.published

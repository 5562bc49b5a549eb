-- ===== src/Usb/Hid/Capture/Totals.antt =====
-- What a capture keeps: the totals of firmware/src/usb/usb_hid.c agree with the raw counters, and the
-- history of a channel only grows.
use pico_uart.Runtime.{History}
use pico_uart.Usb.{PortStats, CdcStats}
use pico_uart.Usb.Hid.{Channel}
use pico_uart.Prelude.{
  subst, true, not, Bool, sym, ◌/◌, u32_max, ◌∙◌, if◌then◌else◌, none, ltb, some, by_test, Option,
  ◌≤◌, refl, ◌≡◌, arith, ℕ,
}
use pico_uart.Usb.Hid.Capture.{watermarks, capture, is_no_error, account, raw_bytes, note_fault}
use pico_uart.Usb.Hid.Capture.Counters.{
  Agree, AtMost, add-Agree, raise-AtMost, AtMost-length, trans-AtMost,
}
use pico_uart.Usb.Hid.Capture.Step.{
  IsKept, PortFits, CdcFits, IsStep, note-IsStep, sample-IsStep, with_cdc, with_control,
}

-- What is asked of a capture from `channel`: the counters that the totals are now of, if it succeeds
record IsCaptured (channel : Channel) (r : Bool × Channel) : Type 0 where
  step : IsStep channel r.1
  fresh : r.0 ≡ true → r.1.previous ≡ raw_bytes r.1

-- A noted fault leaves the statistics alone.
record IsNoted (a channel noted : Channel) : Type 0 where
  step : IsStep a noted
  raw : raw_bytes noted ≡ raw_bytes channel

fault-IsNoted :
    (us : ℕ) (a channel : Channel)
    → IsStep a channel
    → IsNoted a channel
        (if not (is_no_error channel.control.reason) then note_fault us channel else channel)
unfolding note_fault
fault-IsNoted us a channel s =
    by_test (IsNoted a channel) (not (is_no_error channel.control.reason))
      (λ _. record {
        step = note-IsStep us a channel s;
        raw =
            by_test (λ (n : Channel). raw_bytes n ≡ raw_bytes channel)
              (ltb channel.last_fault_s
                (if ltb u32_max (us / 1000000) then u32_max else us / 1000000))
              (λ _. refl) (λ _. refl);
      })
      (λ _. record { step = s; raw = refl })

account-IsCaptured : (a channel : Channel) → IsStep a channel → IsCaptured a (true, account channel)
unfolding account
account-IsCaptured a channel s =
    let n = fault-IsNoted channel.control.uptime_us a channel s in
    let up = raise-AtMost (watermarks channel) channel.peaks (sym s.kept.peaks) in
    record {
      step = record {
        kept = record {
          agree =
              add-Agree (raw_bytes channel) channel.previous channel.total s.kept.raw
                (sym s.kept.four) s.kept.agree;
          four = refl;
          peaks = sym (AtMost-length _ _ up) ∙ s.kept.peaks;
          counts = n.step.kept.counts;
          baselines = n.step.kept.baselines;
          widths = n.step.kept.widths;
          raw = n.step.kept.raw;
        };
        grown = record {
          peaks = trans-AtMost _ _ _ s.grown.peaks up;
          counts = n.step.grown.counts;
          fault = n.step.grown.fault;
        };
      };
      fresh = λ _. sym n.raw;
    }

capture-IsCaptured :
    (now_us : ℕ) (stats : Option PortStats) (cdc : Option CdcStats) (control : Option History)
    (channel : Channel)
    → PortFits stats
    → CdcFits cdc
    → IsKept channel
    → IsCaptured channel (capture now_us stats cdc control channel)
unfolding capture
capture-IsCaptured now_us stats none control channel f g k = record {
  step = sample-IsStep now_us stats channel f k;
  fresh = λ e. absurd (ground arith);
}
capture-IsCaptured now_us stats (some c) none channel f g k = record {
  step = with_cdc channel _ c g (sample-IsStep now_us stats channel f k);
  fresh = λ e. absurd (ground arith);
}
capture-IsCaptured now_us stats (some c) (some h) channel f g k =
    account-IsCaptured channel _
      (with_control channel _ h (with_cdc channel _ c g (sample-IsStep now_us stats channel f k)))

-- A capture of a channel, whatever it can read and whether it succeeds, keeps the totals in step with
-- the raw 32-bit counters: their low 32 bits are the counters of the last accounted capture, which
-- after a successful one are the present ones. And what the host sees as history never falls: the
-- peaks, the counts of receive faults and the time of the last fault.
pub capture_lem :
    (now_us : ℕ) (stats : Option PortStats) (cdc : Option CdcStats) (control : Option History)
    (channel : Channel)
    → PortFits stats
    → CdcFits cdc
    → IsKept channel
    → let (ok, later) = capture now_us stats cdc control channel in
      IsKept later
      × (ok ≡ true → Agree later.total (raw_bytes later))
      × AtMost channel.peaks later.peaks
      × AtMost channel.rx_count later.rx_count
      × (channel.last_fault_s ≤ later.last_fault_s)
capture_lem now_us stats cdc control channel f g k =
    let c = capture-IsCaptured now_us stats cdc control channel f g k in
    (
      c.step.kept,
      λ e.
          subst (Agree (capture now_us stats cdc control channel).1.total) (c.fresh e)
            c.step.kept.agree,
      c.step.grown.peaks,
      c.step.grown.counts,
      c.step.grown.fault,
    )

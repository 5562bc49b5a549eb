-- ===== src/Usb/Hid/Capture/Step.antt =====
-- What each part of a capture of firmware/src/usb/usb_hid.c keeps of a channel.
use pico_uart.Runtime.{History}
use pico_uart.Usb.{PortStats, CdcStats}
use pico_uart.Usb.Hid.{current, is_unavailable, Channel}
use pico_uart.Prelude.{
  sym, ◌/◌, u32_max, ◌∙◌, if◌then◌else◌, none, saturating_add, ltb, some, by_test, Option, ◌≤◌,
  refl, [], u32_mod, ◌≡◌, ◌<◌, arith, length, ◌∷◌, ℕ,
}
use pico_uart.Usb.Hid.Capture.{
  any_gain, raw_bytes, sample_uart, accept_sample, note_fault, count_faults,
}
use pico_uart.Usb.Hid.Capture.Counters.{Agree, AtMost, AllU32, refl-AtMost, count-AtMost}

-- A channel's lists have their lengths, its counters their widths, and its totals agree.
pub record IsKept (channel : Channel) : Type 0 where
  pub agree : Agree channel.total channel.previous
  pub four : length channel.previous ≡ 4
  pub peaks : length channel.peaks ≡ 4
  pub counts : length channel.rx_count ≡ 2
  pub baselines : length channel.rx_previous ≡ 2
  pub widths : AllU32 channel.rx_count
  pub raw : AllU32 (raw_bytes channel)

-- The later channel has seen at least as much.
pub record IsGrown (channel later : Channel) : Type 0 where
  pub peaks : AtMost channel.peaks later.peaks
  pub counts : AtMost channel.rx_count later.rx_count
  pub fault : channel.last_fault_s ≤ later.last_fault_s

-- The driver's and the CDC side's counters have 32 bits.
abbrev pub PortFits : Option PortStats → Type 0
PortFits none = Unit
PortFits (some s) = AllU32 (
    s.uart_tx_bytes ∷ s.uart_rx_bytes ∷ s.rx_ring_overflow_count ∷ s.rx_ring_pending_overflow_count
    ∷ s.rx_error_count ∷ [])

abbrev pub CdcFits : Option CdcStats → Type 0
CdcFits none = Unit
CdcFits (some s) = (s.tx_bytes < u32_mod) × (s.rx_bytes < u32_mod)

pub record IsStep (channel later : Channel) : Type 0 where
  pub kept : IsKept later
  pub grown : IsGrown channel later

pub note-IsStep :
    (us : ℕ) (a channel : Channel) → IsStep a channel → IsStep a (note_fault us channel)
unfolding note_fault
note-IsStep us a channel s =
    by_test (IsStep a)
      (ltb channel.last_fault_s (if ltb u32_max (us / 1000000) then u32_max else us / 1000000))
      (λ t. record {
        kept = record {
          agree = s.kept.agree;
          four = s.kept.four;
          peaks = s.kept.peaks;
          counts = s.kept.counts;
          baselines = s.kept.baselines;
          widths = s.kept.widths;
          raw = s.kept.raw;
        };
        grown = record {
          peaks = s.grown.peaks;
          counts = s.grown.counts;
          fault = ground (arith, s.grown.fault);
        };
      })
      (λ _. s)

refl-IsStep : (channel : Channel) → IsKept channel → IsStep channel channel
refl-IsStep channel k = record {
  kept = k;
  grown = record {
    peaks = refl-AtMost channel.peaks;
    counts = refl-AtMost channel.rx_count;
    fault = omega arith;
  };
}

accept-IsStep :
    (now_us : ℕ) (s : PortStats) (channel : Channel)
    → PortFits (some s)
    → IsKept channel
    → IsStep channel (accept_sample now_us s channel)
unfolding accept_sample
accept-IsStep now_us s channel f k =
    let rx =
      saturating_add s.rx_ring_overflow_count s.rx_ring_pending_overflow_count
      ∷ s.rx_error_count
      ∷ [] in
    let c =
      count-AtMost rx channel.rx_previous channel.rx_count (ground arith, (f.1.1.1.1.0, tt))
        k.widths (omega (arith, k.counts)) (k.baselines ∙ sym k.counts) in
    let sampled : IsStep channel (record channel {
      uart = s;
      uart_sample_us = now_us;
      measurement = current;
      rx_previous = rx;
      rx_count = count_faults rx channel.rx_previous channel.rx_count;
    }) =
      record {
        kept = record {
          agree = k.agree;
          four = k.four;
          peaks = k.peaks;
          counts = c.2 ∙ k.counts;
          baselines = refl;
          widths = c.1;
          raw = (f.0, (f.1.0, k.raw.1.1));
        };
        grown = record { peaks = refl-AtMost channel.peaks; counts = c.0; fault = omega arith };
      } in
    by_test (IsStep channel) (any_gain rx channel.rx_previous)
      (λ _. note-IsStep now_us channel _ sampled) (λ _. sampled)

pub sample-IsStep :
    (now_us : ℕ) (stats : Option PortStats) (channel : Channel)
    → PortFits stats
    → IsKept channel
    → IsStep channel (sample_uart now_us stats channel)
unfolding sample_uart
sample-IsStep now_us none channel f k =
    by_test (IsStep channel) (is_unavailable channel.measurement) (λ _. refl-IsStep channel k)
      (λ _. record {
        kept = record {
          agree = k.agree;
          four = k.four;
          peaks = k.peaks;
          counts = k.counts;
          baselines = k.baselines;
          widths = k.widths;
          raw = k.raw;
        };
        grown = record {
          peaks = refl-AtMost channel.peaks;
          counts = refl-AtMost channel.rx_count;
          fault = omega arith;
        };
      })
sample-IsStep now_us (some s) channel f k = accept-IsStep now_us s channel f k

pub with_cdc :
    (a s : Channel) (c : CdcStats) → CdcFits (some c) → IsStep a s → IsStep a (record s { cdc = c })
with_cdc a s c g v = record {
  kept = record {
    agree = v.kept.agree;
    four = v.kept.four;
    peaks = v.kept.peaks;
    counts = v.kept.counts;
    baselines = v.kept.baselines;
    widths = v.kept.widths;
    raw = (v.kept.raw.0, (v.kept.raw.1.0, (g.0, (g.1, tt))));
  };
  grown = record { peaks = v.grown.peaks; counts = v.grown.counts; fault = v.grown.fault };
}

pub with_control : (a s : Channel) (h : History) → IsStep a s → IsStep a (record s { control = h })
with_control a s h v = record {
  kept = record {
    agree = v.kept.agree;
    four = v.kept.four;
    peaks = v.kept.peaks;
    counts = v.kept.counts;
    baselines = v.kept.baselines;
    widths = v.kept.widths;
    raw = v.kept.raw;
  };
  grown = record { peaks = v.grown.peaks; counts = v.grown.counts; fault = v.grown.fault };
}

-- ===== src/Bridge/Tests.antt =====
-- A ring of four bytes against callbacks that take and give a few at a time.
use pico_uart.Bridge.Fill.{fill_tx_keeps}
use pico_uart.Ring.View.{contents}
use pico_uart.Ring.Invariant.{IsValid}
use pico_uart.Bridge.Rounds.{drain_rx_lem, fill_tx_lem}
use pico_uart.Prelude.{
  take-append-drop, sym, refl, length-take, ◌++◌, true, [], ◌+◌, ◌∷◌, ◌≤◌, ℕ, List, ◌≡◌, arith,
}
use pico_uart.Ring.{Ring}
use pico_uart.Bridge.{length, take, drop, drain_rx, fill_tx}

abbrev two_waiting : Ring
two_waiting = record {
  storage = 10 ∷ 11 ∷ 0 ∷ 0 ∷ [];
  size = 4;
  mask = 3;
  producer = 2;
  consumer = 0;
  high_watermark = 2;
  overflow_count = 0;
  producer_reserved_sequence = 2;
  producer_reserved_count = 0;
  consumer_reserved_sequence = 0;
  consumer_reserved_count = 0;
}

-- The world is the list of bytes delivered; one byte is taken at a time.
abbrev take_one : List ℕ → List ℕ → List ℕ × ℕ
take_one sent [] = (sent, 0)
take_one sent (b ∷ bs) = (sent ++ (b ∷ []), 1)

drain_rx_lem_example :
    let drain = λ (rounds : ℕ).
      drain_rx take_one (λ s n. true) (λ s. 0) (λ s r. (s, r)) rounds 3 64 (two_waiting, []) in
    ((drain 3).1 ≤ 3) × (drain (3 + 5) ≡ drain 3)
drain_rx_lem_example =
    drain_rx_lem take_one (λ s n. true) (λ s. 0) (λ s r. (s, r)) 3 64 5 two_waiting [] (omega arith)

-- The world is the list of bytes that USB still has.
abbrev give : List ℕ → ℕ → List ℕ × List ℕ
give waiting n = (drop n waiting, take n waiting)

abbrev from_usb_bytes : List ℕ
from_usb_bytes = 1 ∷ 2 ∷ 3 ∷ []

fill_tx_lem_example :
    ((fill_tx give 2 2 (two_waiting, from_usb_bytes)).1 ≤ 2)
    × (fill_tx give (2 + 5) 2 (two_waiting, from_usb_bytes)
        ≡ fill_tx give 2 2 (two_waiting, from_usb_bytes))
fill_tx_lem_example = fill_tx_lem give 2 5 (two_waiting, from_usb_bytes) (omega arith)

two_waiting-IsValid : IsValid two_waiting
two_waiting-IsValid = record {
  power = (2, refl);
  size_fits = omega arith;
  mask_low = refl;
  stored = refl;
  producer_fits = omega arith;
  consumer_fits = omega arith;
  overflow_fits = omega arith;
  watermark_fits = omega arith;
  readable_fits = omega arith;
  writable_fits = omega arith;
}

give_bounded : (waiting : List ℕ) (n : ℕ) → length (give waiting n).1 ≤ n
give_bounded waiting n = omega (arith, length-take n waiting)

fill_tx_keeps_example :
    let ((r', s'), total) = fill_tx give 4 0 (two_waiting, from_usb_bytes) in
    IsValid r' × (contents r' ++ s' ≡ contents two_waiting ++ from_usb_bytes)
fill_tx_keeps_example =
    fill_tx_keeps give (λ waiting. waiting) give_bounded
      (λ waiting n. sym (take-append-drop n waiting)) 4 0 two_waiting from_usb_bytes
      two_waiting-IsValid

-- ===== src/Usb/Cdc/Answers.antt =====
-- What `tud_cdc_line_coding_cb` of firmware/src/usb/usb_cdc.c makes of a request for line settings.
use mathlib.Core.Option.{some-injective}
use pico_uart.Prelude.{
  ◌∙◌, sym, inl, subst, not, ◌⊎◌, by_test, inr, some, false, u32_mod, refl, add32, true, by_option,
  ◌<◌, ℕ, Option, arith, ◌≡◌,
}
use pico_uart.Usb.Cdc.{
  Link, line_coding_cb, arm_soft_pending, reject_line_coding, parse_reason, backend_reason,
}
use pico_uart.Driver.{acceptable, mark_control_pending, report_control_error}
use pico_uart.LineCoding.{LineCoding, from_usb}
use pico_uart.Control.{apply_reject_error, completion_is_current}
use pico_uart.Control.Flags.{has, raise_lem, lower_lem, raise}
use pico_uart.Plane.{record_error}
use pico_uart.Runtime.{ControlError, Clock}

-- The settings `c` wait at the interface, under the port's new generation.
abbrev pub IsArmed : {B U : Type 0} → LineCoding → Link B U → Type 0
IsArmed c later =
    (later.cdc.line_coding.pending ≡ true)
    × (later.cdc.line_coding.line_coding ≡ c)
    × (later.cdc.line_coding.control_generation ≡ later.port.control_generation)
    × (has later.port.status_flags 8 ≡ true)
    × (has later.port.status_flags 4 ≡ false)

-- The interface is as it was, and the port shows the error.
abbrev pub IsRejected : {B U : Type 0} → Link B U → Link B U → Type 0
IsRejected link later =
    (later.cdc ≡ link.cdc)
    × (has later.port.status_flags 4 ≡ true)
    × (has later.port.status_flags 8 ≡ has link.port.status_flags 8)
    × (later.port.mailbox ≡ link.port.mailbox)

module _ {B U : Type 0} where
  arm-IsArmed : (c : LineCoding) (link : Link B U) → IsArmed c (arm_soft_pending c link)
  unfolding arm_soft_pending mark_control_pending
  arm-IsArmed c link =
      let up = raise_lem link.port.status_flags 8 in
      let down = lower_lem (raise link.port.status_flags 8) 4 (omega arith) in
      (refl, refl, refl, ground arith, ground arith)

  arm_generation :
      (c : LineCoding) (link : Link B U)
      → (arm_soft_pending c link).port.control_generation ≡ add32 link.port.control_generation 1
  unfolding arm_soft_pending mark_control_pending
  arm_generation c link = refl

  reject-IsRejected :
      (clock : Clock) (reason : ControlError) (link : Link B U)
      → IsRejected link (reject_line_coding clock reason link)
        × ((reject_line_coding clock reason link).port.control_generation
            ≡ add32 link.port.control_generation 1)
  unfolding reject_line_coding report_control_error record_error apply_reject_error raise
  reject-IsRejected clock reason link =
      let up = raise_lem link.port.status_flags 4 in
      ((refl, ground arith, ground arith, refl), refl)

  record IsAnswer (r : Option LineCoding) (link later : Link B U) : Type 0 where
    next : later.port.control_generation ≡ add32 link.port.control_generation 1
    answer :
        ((c : LineCoding) × (r ≡ some c) × (acceptable link.port c ≡ true) × IsArmed c later)
        ⊎ (((c : LineCoding) → r ≡ some c → acceptable link.port c ≡ false) × IsRejected link later)

  callback-IsAnswer :
      (clock : Clock) (bit_rate stop_bits parity data_bits : ℕ) (link : Link B U)
      → IsAnswer
          (from_usb bit_rate stop_bits parity data_bits)
          link
          (line_coding_cb clock bit_rate stop_bits parity data_bits link)
  unfolding line_coding_cb
  callback-IsAnswer clock bit_rate stop_bits parity data_bits link =
      let r = from_usb bit_rate stop_bits parity data_bits in
      by_option (IsAnswer r link) r _ _
        (λ e.
          let no = reject-IsRejected clock (parse_reason bit_rate) link in
          record { next = no.1; answer = inr (λ c f. absurd (cc), no.0) })
        (λ c e.
          by_test (IsAnswer r link) (not (acceptable link.port c))
            (λ f.
              let no = reject-IsRejected clock (backend_reason link.port.info c) link in
              record {
                next = no.1;
                answer = inr (
                  λ d g.
                      subst (λ x. acceptable link.port x ≡ false) (some-injective c d (sym e ∙ g))
                        (ground arith),
                  no.0,
                );
              })
            (λ f. record {
              next = arm_generation c link;
              answer = inl (c, e, ground arith, arm-IsArmed c link);
            }))

-- A request for line settings is taken up exactly if USB's codes stand for settings that the port's
-- backend can have: these then wait at the interface, under the port's new generation, with the
-- pending flag raised and the error flag cleared. Any other request raises the error flag and leaves
-- the interface, with whatever waits there, and the mailbox as they were. Either way the port has a new
-- generation, so that the answer to an older request is not current any more. The generation before has 32 bits.
pub line_coding_cb_lem :
    {B U : Type 0} (clock : Clock) (bit_rate stop_bits parity data_bits : ℕ) (link : Link B U)
    → link.port.control_generation < u32_mod
    → let later = line_coding_cb clock bit_rate stop_bits parity data_bits link in
      let asked = from_usb bit_rate stop_bits parity data_bits in
      (((c : LineCoding) × (asked ≡ some c) × (acceptable link.port c ≡ true) × IsArmed c later)
        ⊎ (((c : LineCoding) → asked ≡ some c → acceptable link.port c ≡ false)
            × IsRejected link later))
      × (completion_is_current link.port.control_generation later.port.control_generation ≡ false)
unfolding completion_is_current
line_coding_cb_lem clock bit_rate stop_bits parity data_bits link h =
    let a = callback-IsAnswer clock bit_rate stop_bits parity data_bits link in
    (a.answer, ground (arith, a.next))

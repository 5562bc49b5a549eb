-- ===== src/Usb/Cdc/Fair.antt =====
-- Which interfaces a poll serves: the loop of `usb_cdc_poll` of firmware/src/usb/usb_cdc.c.
use pico_uart.Prelude.{
  sym, ◌-◌, subst, zero, refl, ◌∙◌, arith, suc, ◌%◌, ◌==◌, by_test, ◌+◌, ◌≡◌, ◌≢◌, ◌≤◌, ◌<◌, ℕ,
}
use pico_uart.Usb.Cdc.{Link}
use pico_uart.Usb.Cdc.Transfer.{World}
use pico_uart.Usb.Cdc.Session.{poll_link}
use pico_uart.Usb.Cdc.Poll.{Cdc, visit, visit_all, put_link, poll_interfaces}
use pico_uart.Platform.ServiceLoad.{Core}

-- The interface was served once, with core 0's load account at that moment.
abbrev pub ServedOnce : {B U : Type 0} → (ℕ → World B U) → ℕ → Link B U → Link B U → Type 0
ServedOnce worlds itf link later =
    (load : Core) × (later ≡ poll_link (worlds itf) itf (record link { load = load }))

module _ {B U : Type 0} (worlds : ℕ → World B U) where
  visit_links :
      (itf k : ℕ) (c : Cdc B U)
      → (itf ≢ k → (visit worlds k c).links itf ≡ c.links itf)
        × (itf ≡ k → ServedOnce worlds k (c.links k) ((visit worlds k c).links itf))
        × ((visit worlds k c).start_itf ≡ c.start_itf)
  unfolding visit put_link
  visit_links itf k c =
      let polled = poll_link (worlds k) k (record (c.links k) { load = c.load }) in
      (
        λ n. by_test (λ l. l ≡ c.links itf) (itf == k) (λ t. absurd (ground arith)) (λ _. refl),
        λ e.
            (c.load, by_test (λ l. l ≡ polled) (itf == k) (λ _. refl) (λ t. absurd (ground arith))),
        refl,
      )

  others_lem :
      (itf offset rounds : ℕ) (c : Cdc B U)
      → ((j : ℕ) → j < rounds → (c.start_itf + offset + j) % 6 ≢ itf)
      → (visit_all worlds offset rounds c).links itf ≡ c.links itf
  unfolding visit_all
  others_lem itf offset zero c h = refl
  others_lem itf offset (suc rounds) c h =
      let k = (c.start_itf + offset) % 6 in
      let v = visit_links itf k c in
      others_lem itf (offset + 1) rounds (visit worlds k c)
        (λ j l e. h (suc j) (omega arith) (ground (arith, v.2, e)))
      ∙ v.0 (λ e. h 0 (omega arith) (ground (arith, e)))

  served_lem :
      (itf offset rounds k : ℕ) (c : Cdc B U)
      → rounds ≤ 6
      → k < rounds
      → (c.start_itf + offset + k) % 6 ≡ itf
      → ServedOnce worlds itf (c.links itf) ((visit_all worlds offset rounds c).links itf)
  unfolding visit_all
  served_lem itf offset zero k c r l e = absurd (omega arith)
  served_lem itf offset (suc rounds) zero c r l e =
      let v = visit_links itf itf c in
      let here : (c.start_itf + offset) % 6 ≡ itf = omega arith in
      let later = visit worlds itf c in
      let rest : (visit_all worlds (offset + 1) rounds later).links itf ≡ later.links itf =
        others_lem itf (offset + 1) rounds later (λ j h f. omega (arith, v.2)) in
      let (load, q) = v.1 refl in
      subst
        (λ i.
          ServedOnce worlds itf (c.links itf)
            ((visit_all worlds (offset + 1) rounds (visit worlds i c)).links itf))
        (sym here) (load, rest ∙ q)
  served_lem itf offset (suc rounds) (suc k) c r l e =
      let i = (c.start_itf + offset) % 6 in
      let v = visit_links itf i c in
      let later = visit worlds i c in
      subst
        (λ link.
          ServedOnce worlds itf link ((visit_all worlds (offset + 1) rounds later).links itf))
        (v.0 (λ f. omega arith))
        (served_lem itf (offset + 1) rounds k later (omega arith) (omega arith)
          (omega (arith, v.2)))

-- Each poll serves every one of the six interfaces exactly once, on the state in which the poll found
-- it, whichever the poll starts at; the next poll starts at the next interface.
pub poll_interfaces_lem :
    {B U : Type 0} (worlds : ℕ → World B U) (c : Cdc B U) (itf : ℕ)
    → c.start_itf < 6
    → itf < 6
    → let later = poll_interfaces worlds c in
      ServedOnce worlds itf (c.links itf) (later.links itf)
      × (later.start_itf ≡ (c.start_itf + 1) % 6)
unfolding poll_interfaces
poll_interfaces_lem worlds c itf h i = (
  served_lem worlds itf 0 6 ((itf + 6 - c.start_itf) % 6) c (omega arith) (omega arith)
      (omega arith),
  refl,
)

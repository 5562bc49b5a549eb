-- ===== src/Usb/Hid/Command/Accepts.antt =====
-- Which commands the board carries out: the checks of `usb_hid_handle_command` of
-- firmware/src/usb/usb_hid.c against the list of the requests that it accepts.
use pico_uart.Platform.BootConfig.{profile_supported}
use pico_uart.Usb.Hid.{idle, pending, invalid, unsupported, busy, failed}
use pico_uart.Prelude.{
  none, refl, ◌∙◌, ◌||◌, by_test, get_or, ap, List, ltb, leb, is_some, Option, false, bit_and-zero,
  bit_and_low, bit_and_step, arith, ◌*◌, ◌↔◌, true, ◌%◌, ◌==◌, ◌⊎◌, ◌/◌, ◌<◌, ◌≢◌, ◌≡◌, Bool,
  bit_and, ℕ,
}
use pico_uart.Usb.Hid.{CommandStatus, is_pending, Hid, completed}
use pico_uart.Usb.Hid.Command.{
  is_framed, bytes_of, set_result, is_completed, handle_command, run_action, capability_of,
  action_of, verdict,
}

-- The bits of the flags, as a byte
flag_bits :
    (f : ℕ)
    → (bit_and f 0xfc ≡ f / 4 % 64 * 4) × (bit_and f 2 ≡ f / 2 % 2 * 2) × (bit_and f 1 ≡ f % 2)
flag_bits f = (
  omega (arith, bit_and_step f 252, bit_and_step (f / 2) 126, bit_and_low 6 (f / 2 / 2)),
  omega (arith, bit_and_step f 2, bit_and_step (f / 2) 1, bit_and-zero (f / 2 / 2)),
  omega (arith, bit_and_step f 1, bit_and-zero (f / 2)),
)

-- The requests that the board carries out, by their four bytes.
abbrev pub Accepted : (caps : ℕ) (closed framed : Bool) (b1 b2 b3 : ℕ) → Type 0
Accepted caps closed framed b1 b2 b3 =
    (framed ≡ true)
    × (((b1 ≡ 1) × (b2 ≡ 0) × (b3 ≡ 0) × (bit_and caps 1 ≢ 0))
        ⊎ ((b1 ≡ 2) × (b2 ≡ 0) × (b3 ≡ 0) × (bit_and caps 1 ≢ 0))
        ⊎ ((b1 ≡ 3) × (b2 ≡ 1) × (b3 ≡ 0) × (bit_and caps 2 ≢ 0))
        ⊎ ((b1 ≡ 4) × (b2 ≡ 1) × (b3 ≡ 0) × (bit_and caps 4 ≢ 0) × (closed ≡ true))
        ⊎ ((b1 ≡ 4) × (b2 ≡ 3) × (0 < b3) × (b3 < 5) × (bit_and caps 4 ≢ 0) × (closed ≡ true)))

verdict_iff :
    (caps : ℕ) (closed framed : Bool) (b1 b2 b3 : ℕ)
    → b1 < 256
    → b2 < 256
    → ((verdict caps closed framed (action_of framed b1) b2 b3).0 ≡ completed)
      ↔ Accepted caps closed framed b1 b2 b3
unfolding verdict action_of capability_of profile_supported
verdict_iff caps closed framed b1 b2 b3 h1 h2 =
    (ground (arith, flag_bits b2), ground (arith, flag_bits b2))

verdict_answers :
    (caps : ℕ) (closed framed : Bool) (action b2 b3 : ℕ)
    → is_pending (verdict caps closed framed action b2 b3).0 ≡ false
unfolding verdict
verdict_answers caps closed framed action b2 b3 = ground arith

is_completed_iff : (s : CommandStatus) → (is_completed s ≡ true) ↔ (s ≡ completed)
is_completed_iff completed = (λ _. refl, λ _. refl)
is_completed_iff idle = (λ h. cc, λ h. ap is_completed h)
is_completed_iff pending = (λ h. cc, λ h. ap is_completed h)
is_completed_iff invalid = (λ h. cc, λ h. ap is_completed h)
is_completed_iff unsupported = (λ h. cc, λ h. ap is_completed h)
is_completed_iff busy = (λ h. cc, λ h. ap is_completed h)
is_completed_iff failed = (λ h. cc, λ h. ap is_completed h)

run_done :
    (timeout : ℕ → ℕ) (action profile : ℕ) (hid : Hid)
    → hid.reboot_pending ≡ false
    → is_pending hid.command_status ≡ false
    → let (hid', led) = run_action timeout action profile hid in
      (is_some led ≡ leb action 2)
      × (hid'.reboot_pending ≡ (action == 3))
      × (is_pending hid'.command_status ≡ ltb 3 action)
      × (ltb 3 action ≡ true → hid'.requested_profile ≡ profile)
unfolding run_action
run_done timeout action profile hid f g =
    (ground arith, ground arith, ground arith, λ h. ground arith)

-- The claim of `command_iff`, for the requests `A`.
record IsCarried (A : Type 0) (b1 b3 : ℕ) (r : Bool × Hid × Option Bool) : Type 0 where
  led : (is_some r.2 ≡ true) ↔ (A × (b1 < 3))
  reboot : (r.1.reboot_pending ≡ true) ↔ (A × (b1 ≡ 3))
  save : (is_pending r.1.command_status ≡ true) ↔ (A × (b1 ≡ 4))
  profile : is_pending r.1.command_status ≡ true → r.1.requested_profile ≡ b3

the_bool : {b : Bool} → b ≡ true → b ≡ false → ⊥
the_bool e f = ground arith

action_of-Accepted :
    (caps : ℕ) (closed framed : Bool) (b1 b2 b3 : ℕ)
    → Accepted caps closed framed b1 b2 b3
    → (action_of framed b1 ≡ b1) × (b1 < 5)
unfolding action_of
action_of-Accepted caps closed framed b1 b2 b3 a = (ground arith, ground arith)

done-IsCarried :
    (A : Type 0) (b1 b3 : ℕ) (r : Bool × Hid × Option Bool)
    → A
    → b1 < 5
    → is_some r.2 ≡ leb b1 2
    → r.1.reboot_pending ≡ (b1 == 3)
    → is_pending r.1.command_status ≡ ltb 3 b1
    → (ltb 3 b1 ≡ true → r.1.requested_profile ≡ b3)
    → IsCarried A b1 b3 r
done-IsCarried A b1 b3 r a h l p s q = record {
  led = (λ e. (a, ground arith), λ e. ground arith);
  reboot = (λ e. (a, ground arith), λ e. ground arith);
  save = (λ e. (a, ground arith), λ e. ground arith);
  profile = λ e. q (ground arith);
}

refused-IsCarried :
    (A : Type 0) (b1 b3 : ℕ) (r : Bool × Hid × Option Bool)
    → ¬ A
    → is_some r.2 ≡ false
    → r.1.reboot_pending ≡ false
    → is_pending r.1.command_status ≡ false
    → IsCarried A b1 b3 r
refused-IsCarried A b1 b3 r n l p s = record {
  led = (λ e. absurd (ground arith), λ (a, _). absurd (n a));
  reboot = (λ e. absurd (ground arith), λ (a, _). absurd (n a));
  save = (λ e. absurd (ground arith), λ (a, _). absurd (n a));
  profile = λ e. absurd (ground arith);
}

handle-IsCarried :
    (timeout : ℕ → ℕ) (closed : Bool) (request : Option (List ℕ)) (size : ℕ) (hid : Hid)
    → is_pending hid.command_status ≡ false
    → hid.reboot_pending ≡ false
    → get_or (bytes_of request) 1 0 < 256
    → get_or (bytes_of request) 2 0 < 256
    → IsCarried
        (Accepted
          (get_or hid.identity 17 0)
          closed
          (is_framed request size)
          (get_or (bytes_of request) 1 0)
          (get_or (bytes_of request) 2 0)
          (get_or (bytes_of request) 3 0))
        (get_or (bytes_of request) 1 0)
        (get_or (bytes_of request) 3 0)
        (handle_command timeout closed request size hid)
unfolding handle_command set_result
handle-IsCarried timeout closed request size hid p r h1 h2 =
    let caps = get_or hid.identity 17 0 in
    let framed = is_framed request size in
    let b1 = get_or (bytes_of request) 1 0 in
    let b2 = get_or (bytes_of request) 2 0 in
    let b3 = get_or (bytes_of request) 3 0 in
    let A = Accepted caps closed framed b1 b2 b3 in
    let v = verdict caps closed framed (action_of framed b1) b2 b3 in
    let iff = verdict_iff caps closed framed b1 b2 b3 h1 h2 in
    let is = is_completed_iff v.0 in
    let free = verdict_answers caps closed framed (action_of framed b1) b2 b3 in
    let answered = set_result (action_of framed b1) v.0 v.1 hid in
    by_test (IsCarried A b1 b3) (is_pending hid.command_status || hid.reboot_pending)
      (λ t. absurd (ground arith))
      (λ _.
        by_test (IsCarried A b1 b3) (is_completed v.0)
          (λ t.
            let a = iff.0 (is.0 t) in
            let (e, h) = action_of-Accepted caps closed framed b1 b2 b3 a in
            let d = run_done timeout (action_of framed b1) b3 answered r free in
            done-IsCarried A b1 b3 _ a h (d.0 ∙ ap (λ n. leb n 2) e) (d.1 ∙ ap (λ n. n == 3) e)
              (d.2 ∙ ap (λ n. ltb 3 n) e) (λ q. d.3 (ap (λ n. ltb 3 n) e ∙ q)))
          (λ f.
            refused-IsCarried A b1 b3 (true, answered, none) (λ a. the_bool (is.1 (iff.1 a)) f) refl
              r free))

-- A command that comes while no save waits and no reboot is scheduled, from a host whose bytes are
-- bytes. It sets the LED, schedules a reboot or queues a save exactly if it is one of the five
-- accepted forms for the board's capabilities, and which of the three is its action: LED off and on
-- without flags and argument, a reboot that is confirmed, a save of the default profile that is
-- confirmed, and a save of a clock profile that is confirmed and acknowledged, a save only while all
-- CDC sessions are closed. A queued save is of the profile that was asked for.
pub command_iff :
    (timeout : ℕ → ℕ) (closed : Bool) (request : Option (List ℕ)) (size : ℕ) (hid : Hid)
    → is_pending hid.command_status ≡ false
    → hid.reboot_pending ≡ false
    → get_or (bytes_of request) 1 0 < 256
    → get_or (bytes_of request) 2 0 < 256
    → let (_, hid', led) = handle_command timeout closed request size hid in
      let b1 = get_or (bytes_of request) 1 0 in
      let b2 = get_or (bytes_of request) 2 0 in
      let b3 = get_or (bytes_of request) 3 0 in
      let A = Accepted (get_or hid.identity 17 0) closed (is_framed request size) b1 b2 b3 in
      ((is_some led ≡ true) ↔ (A × (b1 < 3)))
      × ((hid'.reboot_pending ≡ true) ↔ (A × (b1 ≡ 3)))
      × ((is_pending hid'.command_status ≡ true) ↔ (A × (b1 ≡ 4)))
      × (is_pending hid'.command_status ≡ true → hid'.requested_profile ≡ b3)
command_iff timeout closed request size hid p r h1 h2 =
    let c = handle-IsCarried timeout closed request size hid p r h1 h2 in
    (c.led, c.reboot, c.save, c.profile)

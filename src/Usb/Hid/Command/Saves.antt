-- ===== src/Usb/Hid/Command/Saves.antt =====
-- The end of a save that the host asked for: `usb_hid_execute_pending_save` of
-- firmware/src/usb/usb_hid.c, with the flash of firmware/src/platform/boot_config.c.
use pico_uart.Prelude.{
  ap₂, ◌∙◌, sym, subst, inl, refl, inr, not, false, by_test, arith, ◌⊎◌, Bool, true, ℕ, ◌≡◌, List,
}
use pico_uart.Usb.Hid.{
  Hid, is_pending, completed, busy, failed, execution, flash_error, verify_error, cdc_open,
}
use pico_uart.Usb.Hid.Command.{execute_pending_save, finish_save, set_result, reboot_delay_ms}
use pico_uart.Platform.BootConfig.{
  profile_supported, SaveResult, save_ok, flash_failed, verify_failed,
}
use pico_uart.Platform.BootConfig.Store.{
  page_of, program, State, load, get, set_config, save_with_result,
}
use pico_uart.Platform.BootConfig.Save.{save_lem, SaveOutcome}

-- The reboot comes, into the profile that the host asked for.
abbrev pub IsSaved : (ℕ → ℕ) → Bool → Hid → Hid × State → Type 0
IsSaved timeout rp2350 hid (later, boot) =
    (later.command_status ≡ completed)
    × (later.reboot_pending ≡ true)
    × (later.reboot_deadline ≡ timeout reboot_delay_ms)
    × ((recovery : Bool) → get (load rp2350 recovery boot) ≡ hid.requested_profile)

-- No reboot is added, and the host is told why: a session is open or the profile is not supported, and
-- the flash is as it was; or the flash driver refused, or the sector did not verify.
abbrev pub IsUnsaved : Bool → Bool → Hid → State → Hid × State → Type 0
IsUnsaved closed executed hid before (later, boot) =
    (later.reboot_pending ≡ hid.reboot_pending)
    × (((closed ≡ false)
          × (later.command_status ≡ busy)
          × (later.error_reason ≡ cdc_open)
          × (boot ≡ before))
        ⊎ ((later.command_status ≡ failed)
            × (((later.error_reason ≡ execution)
                  × (profile_supported hid.requested_profile ≡ false)
                  × (boot ≡ before))
                ⊎ ((later.error_reason ≡ flash_error) × (executed ≡ false))
                ⊎ ((later.error_reason ≡ verify_error) × (executed ≡ true)))))

-- What setting the profile gives
configured :
    (profile : ℕ) (boot : State)
    → let (ok, boot') = set_config profile boot in
      (ok ≡ profile_supported profile)
      × (ok ≡ true → boot'.clock_profile ≡ profile)
      × (boot'.sector ≡ boot.sector)
      × (ok ≡ false → boot' ≡ boot)
unfolding set_config
configured profile boot =
    by_test
      (λ (r : Bool × State).
        (r.0 ≡ profile_supported profile)
        × (r.0 ≡ true → r.1.clock_profile ≡ profile)
        × (r.1.sector ≡ boot.sector)
        × (r.0 ≡ false → r.1 ≡ boot))
      (not (profile_supported profile))
      (λ f. (ground arith, λ e. absurd (ground arith), refl, λ _. refl))
      (λ f. (ground arith, λ _. refl, refl, λ e. absurd (ground arith)))

-- The end of the save by its result
finished :
    (timeout : ℕ → ℕ) (rp2350 closed : Bool) (hid : Hid) (before boot1 : State)
    (driver : Bool × List ℕ) (r : SaveResult × State)
    → closed ≡ true
    → boot1.clock_profile ≡ hid.requested_profile
    → SaveOutcome rp2350 boot1 driver r
    → let end : Hid × State = (finish_save timeout r.0 hid, r.1) in
      (is_pending end.0.command_status ≡ false)
      × (((closed ≡ true) × IsSaved timeout rp2350 hid end)
          ⊎ IsUnsaved closed driver.0 hid before end)
unfolding finish_save set_result
finished timeout rp2350 closed hid before boot1 (executed, sector) (save_ok, boot2) c e
      (loads, _, _) =
    (refl, inl (c, (refl, refl, refl, λ r. loads r ∙ e)))
finished timeout rp2350 closed hid before boot1 (executed, sector) (flash_failed, boot2) c e
      (x, _, _) =
    (refl, inr (refl, inr (refl, inr (inl (refl, x)))))
finished timeout rp2350 closed hid before boot1 (executed, sector) (verify_failed, boot2) c e
      (x, _, _, _) =
    (refl, inr (refl, inr (refl, inr (inr (refl, x)))))

-- A save ends when it is executed, and waits no longer, whatever the flash driver does. Either it is
-- complete: the sessions were closed, the reboot is scheduled, and every later boot has the profile
-- that the host asked for. Or nothing is scheduled and the host reads why: a session is open or the
-- profile is not supported, with the flash and the settings as they were; or the flash driver
-- refused; or it succeeded and the sector does not verify.
pub execute_pending_save_lem :
    (flash_range_erase : List ℕ → List ℕ) (flash_range_program : List ℕ → List ℕ → List ℕ)
    (flash_safe_execute : (List ℕ → List ℕ) → List ℕ → Bool × List ℕ) (timeout : ℕ → ℕ)
    (rp2350 closed : Bool) (hid : Hid) (boot : State)
    → let r =
        execute_pending_save flash_range_erase flash_range_program flash_safe_execute timeout rp2350
          closed hid boot in
      let change =
        program flash_range_erase flash_range_program flash_safe_execute
          (page_of hid.requested_profile) in
      (is_pending r.0.command_status ≡ false)
      × (((closed ≡ true) × IsSaved timeout rp2350 hid r)
          ⊎ IsUnsaved closed (flash_safe_execute change boot.sector).0 hid boot r)
unfolding execute_pending_save set_result
execute_pending_save_lem erase write execute timeout rp2350 closed hid boot =
    let change = λ (profile : ℕ). program erase write execute (page_of profile) in
    let asked = hid.requested_profile in
    let P : Bool → Hid × State → Type 0 = λ executed r.
      (is_pending r.0.command_status ≡ false)
      × (((closed ≡ true) × IsSaved timeout rp2350 hid r) ⊎ IsUnsaved closed executed hid boot r) in
    let executed = (execute (change asked) boot.sector).0 in
    let (ok, set, sector, same) = configured asked boot in
    let boot1 = (set_config asked boot).1 in
    let saved = save_with_result erase write execute rp2350 boot1 in
    by_test (P executed) (not closed)
      (λ c. (refl, inr (refl, inl (ground arith, refl, refl, refl))))
      (λ c.
        by_test (P executed) (not (set_config asked boot).0)
          (λ s.
            (refl, inr (refl, inr (refl, inl (refl, sym ok ∙ ground arith, same (ground arith))))))
          (λ s.
            let profile = set (ground arith) in
            subst (λ x. P x (finish_save timeout saved.0 hid, saved.1))
              (ap₂ (λ p x. (execute (change p) x).0) profile sector)
              (finished timeout rp2350 closed hid boot boot1
                (execute (change boot1.clock_profile) boot1.sector) saved (ground arith) profile
                (save_lem erase write execute rp2350 boot1).0)))

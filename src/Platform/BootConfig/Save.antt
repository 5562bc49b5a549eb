-- ===== src/Platform/BootConfig/Save.antt =====
-- Saving the settings to flash.
use pico_uart.Prelude.{
  not, by_test, ◌&&◌, false, inr, inl, true, ℕ, List, Bool, refl, ◌≡◌, arith, ◌⊎◌,
}
use pico_uart.Platform.BootConfig.{
  SaveResult, verify_failed, page_size, take, bytes_equal, accept, save_ok, flash_failed,
}
use pico_uart.Platform.BootConfig.Store.{
  State, load, get, page_of, holds_profile, program, save_with_result,
}
use pico_uart.Platform.BootConfig.Codec.{decode-Shape}

-- A sector with an accepted record gives its profile to every later boot.
holds-load :
    (rp2350 recovery : Bool) (s : State) (profile : ℕ)
    → holds_profile rp2350 s.sector profile ≡ true
    → get (load rp2350 recovery s) ≡ profile
unfolding holds_profile load get accept
holds-load rp2350 recovery s profile h = elim (decode-Shape s.sector) [
  | inl (r, o, e) ↦ ground (arith, e rp2350 false)
  | inr (p, l, e) ↦ ground (arith, e rp2350 false, e rp2350 recovery)
]

-- What a save of `s` leaves, by its result. `executed` and `sector` are what the flash driver gave.
abbrev pub SaveOutcome : Bool → State → Bool × List ℕ → SaveResult × State → Type 0
SaveOutcome rp2350 s (executed, sector) (save_ok, s') =
    ((recovery : Bool) → get (load rp2350 recovery s') ≡ s.clock_profile)
    × (s'.clock_profile ≡ s.clock_profile)
    × ((s' ≡ s)
        ⊎ ((executed ≡ true)
            × (s'.sector ≡ sector)
            × (bytes_equal (take page_size sector) (page_of s.clock_profile) ≡ true)))
SaveOutcome rp2350 s (executed, sector) (flash_failed, s') =
    (executed ≡ false) × (s'.sector ≡ sector) × (s'.clock_profile ≡ s.clock_profile)
SaveOutcome rp2350 s (executed, sector) (verify_failed, s') =
    (executed ≡ true)
    × (s'.sector ≡ sector)
    × (s'.clock_profile ≡ s.clock_profile)
    × ((bytes_equal (take page_size sector) (page_of s.clock_profile)
          && holds_profile rp2350 sector s.clock_profile)
        ≡ false)

-- Whatever the flash driver does, a save that succeeds has its profile in every later boot: the sector
-- held it before, and nothing has changed, or the driver succeeded and the page was read back. The
-- other results say which step failed: the driver refused, or the sector that it left is not the
-- page, or no record of the profile. The cached profile stays. A sector that already holds the
-- profile is left alone, with success.
pub save_lem :
    (flash_range_erase : List ℕ → List ℕ) (flash_range_program : List ℕ → List ℕ → List ℕ)
    (flash_safe_execute : (List ℕ → List ℕ) → List ℕ → Bool × List ℕ) (rp2350 : Bool) (s : State)
    → let r = save_with_result flash_range_erase flash_range_program flash_safe_execute rp2350 s in
      let change =
        program flash_range_erase flash_range_program flash_safe_execute
          (page_of s.clock_profile) in
      SaveOutcome rp2350 s (flash_safe_execute change s.sector) r
      × (holds_profile rp2350 s.sector s.clock_profile ≡ true → r ≡ (save_ok, s))
unfolding save_with_result
save_lem erase write execute rp2350 s =
    let profile = s.clock_profile in
    let change = program erase write execute (page_of profile) in
    let driver = execute change s.sector in
    let held = holds_profile rp2350 s.sector profile in
    let P : SaveResult × State → Type 0 =
      λ r. SaveOutcome rp2350 s driver r × (held ≡ true → r ≡ (save_ok, s)) in
    by_test P held (λ h. (((λ r. holds-load rp2350 r s profile h), refl, inl refl), λ _. refl))
      (λ new.
        by_test P (not driver.0) (λ f. ((ground arith, refl, refl), λ h. absurd (ground arith)))
          (λ f.
            by_test P (not (bytes_equal (take page_size driver.1) (page_of profile)))
              (λ g. ((ground arith, refl, refl, ground arith), λ h. absurd (ground arith)))
              (λ g.
                by_test P (holds_profile rp2350 driver.1 profile)
                  (λ k. (
                    (
                      (λ r. holds-load rp2350 r _ profile k),
                      refl,
                      inr (ground arith, refl, ground arith),
                    ),
                    λ h. absurd (ground arith),
                  ))
                  (λ k. ((ground arith, refl, refl, ground arith), λ h. absurd (ground arith))))))

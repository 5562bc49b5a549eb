-- ===== src/Control/Flags.antt =====
-- The port's status byte: `UART_DRIVER_PORT_STATUS_*` of firmware/src/uart/uart_driver.h, and what
-- setting and clearing its bits does to the bits.
use Prim.Native.Nat.{bit_or, digits, bit_or-bitwise}
use pico_uart.Prelude.{
  ap₂, sym, ◌&&◌, ◌∙◌, not, bit_and-zero, ◌||◌, bit_and_step, ◌<◌, ap, ◌==◌, min, ◌+◌, ◌*◌, ◌!=◌,
  ◌-◌, ◌%◌, ◌≤◌, Bool, ◌/◌, max, bit_and, arith, ◌≡◌, refl, ℕ, zero, suc,
}

abbrev pub status_ready : ℕ
status_ready = 1

abbrev pub status_init_failed : ℕ
status_init_failed = 2

abbrev pub status_control_error : ℕ
status_control_error = 4

abbrev pub status_control_pending : ℕ
status_control_pending = 8

-- `(flags & bits) != 0u`
unfoldable pub has : ℕ → ℕ → Bool
has flags bits = bit_and flags bits != 0

-- `flags |= bits`
unfoldable pub raise : ℕ → ℕ → ℕ
raise flags bits = bit_or flags bits

-- `flags &= (uint8_t)~bits`
unfoldable pub lower : ℕ → ℕ → ℕ
lower flags bits = bit_and flags (255 - bits)

abbrev or_digits : ℕ → ℕ → ℕ → ℕ
or_digits = digits (λ y. y) max

or_digits_fuel : (n m a b : ℕ) → a ≤ n → a ≤ m → or_digits n a b ≡ or_digits m a b
or_digits_fuel zero zero a b p q = refl
or_digits_fuel zero (suc m) zero b p q = refl
or_digits_fuel zero (suc m) (suc a) b p q = absurd (omega arith)
or_digits_fuel (suc n) zero zero b p q = refl
or_digits_fuel (suc n) zero (suc a) b p q = absurd (omega arith)
or_digits_fuel (suc n) (suc m) zero b p q = refl
or_digits_fuel (suc n) (suc m) (suc a) b p q =
    omega (arith, or_digits_fuel n m (suc a / 2) (b / 2) (omega arith) (omega arith))

bit_or_step : (a b : ℕ) → bit_or a b ≡ bit_or (a / 2) (b / 2) * 2 + max (a % 2) (b % 2)
bit_or_step zero b = omega (arith, bit_or-bitwise 0 b, bit_or-bitwise 0 (b / 2))
bit_or_step (suc a) b = omega (
  arith,
  bit_or-bitwise (suc a) b,
  bit_or-bitwise (suc a / 2) (b / 2),
  or_digits_fuel a (suc a / 2) (suc a / 2) (b / 2) (omega arith) (omega arith),
)

and_low : (a b : ℕ) → bit_and a b % 2 ≡ min (a % 2) (b % 2)
and_low a b = omega (arith, bit_and_step a b)

and_half : (a b : ℕ) → bit_and a b / 2 ≡ bit_and (a / 2) (b / 2)
and_half a b = omega (arith, bit_and_step a b)

or_low : (a b : ℕ) → bit_or a b % 2 ≡ max (a % 2) (b % 2)
or_low a b = omega (arith, bit_or_step a b)

or_half : (a b : ℕ) → bit_or a b / 2 ≡ bit_or (a / 2) (b / 2)
or_half a b = omega (arith, bit_or_step a b)

-- The digit of weight 1, 2, 4 or 8.
abbrev digit : ℕ → ℕ → ℕ
digit zero n = n % 2
digit (suc k) n = digit k (n / 2)

and-digit : (k a b : ℕ) → digit k (bit_and a b) ≡ min (digit k a) (digit k b)
and-digit zero a b = and_low a b
and-digit (suc k) a b = ap (digit k) (and_half a b) ∙ and-digit k (a / 2) (b / 2)

or-digit : (k a b : ℕ) → digit k (bit_or a b) ≡ max (digit k a) (digit k b)
or-digit zero a b = or_low a b
or-digit (suc k) a b = ap (digit k) (or_half a b) ∙ or-digit k (a / 2) (b / 2)

mask_1 : (f : ℕ) → bit_and f 1 ≡ digit 0 f
mask_1 f = omega (arith, bit_and_step f 1, bit_and-zero (f / 2))

mask_2 : (f : ℕ) → bit_and f 2 ≡ digit 1 f * 2
mask_2 f = omega (arith, bit_and_step f 2, mask_1 (f / 2))

mask_4 : (f : ℕ) → bit_and f 4 ≡ digit 2 f * 4
mask_4 f = omega (arith, bit_and_step f 4, mask_2 (f / 2))

mask_8 : (f : ℕ) → bit_and f 8 ≡ digit 3 f * 8
mask_8 f = omega (arith, bit_and_step f 8, mask_4 (f / 2))

-- One flag is one digit.
has-digits :
    (f : ℕ)
    → (has f 1 ≡ (digit 0 f == 1))
      × (has f 2 ≡ (digit 1 f == 1))
      × (has f 4 ≡ (digit 2 f == 1))
      × (has f 8 ≡ (digit 3 f == 1))
unfolding has
has-digits f = (
  ground (arith, mask_1 f),
  ground (arith, mask_2 f),
  ground (arith, mask_4 f),
  ground (arith, mask_8 f),
)

digit-lt : (k n : ℕ) → digit k n < 2
digit-lt zero n = omega arith
digit-lt (suc k) n = digit-lt k (n / 2)

clear_digit : (a b c : ℕ) → a < 2 → b < 2 → c ≡ 1 - b → (min a c == 1) ≡ (not (b == 1) && a == 1)
clear_digit a b c p q e = ground arith

cleared :
    (k f m : ℕ)
    → digit k (255 - m) ≡ 1 - digit k m
    → (digit k (bit_and f (255 - m)) == 1) ≡ (not (digit k m == 1) && digit k f == 1)
cleared k f m e =
    rw (and-digit k f (255 - m))
      (clear_digit (digit k f) (digit k m) (digit k (255 - m)) (digit-lt k f) (digit-lt k m) e)

-- Clearing and setting bits, flag by flag.
lower_flags :
    (f m : ℕ)
    → m < 256
    → (has (lower f m) 1 ≡ (not (has m 1) && has f 1))
      × (has (lower f m) 2 ≡ (not (has m 2) && has f 2))
      × (has (lower f m) 4 ≡ (not (has m 4) && has f 4))
      × (has (lower f m) 8 ≡ (not (has m 8) && has f 8))
unfolding lower
lower_flags f m h =
    let old = has-digits f in
    let mask = has-digits m in
    let new = has-digits (bit_and f (255 - m)) in
    (
      new.0 ∙ cleared 0 f m (omega arith) ∙ sym (ap₂ (λ a b. not a && b) mask.0 old.0),
      new.1 ∙ cleared 1 f m (omega arith) ∙ sym (ap₂ (λ a b. not a && b) mask.1 old.1),
      new.2 ∙ cleared 2 f m (omega arith) ∙ sym (ap₂ (λ a b. not a && b) mask.2 old.2),
      new.3 ∙ cleared 3 f m (omega arith) ∙ sym (ap₂ (λ a b. not a && b) mask.3 old.3),
    )

raise_flags :
    (f m : ℕ)
    → (has (raise f m) 1 ≡ (has m 1 || has f 1))
      × (has (raise f m) 2 ≡ (has m 2 || has f 2))
      × (has (raise f m) 4 ≡ (has m 4 || has f 4))
      × (has (raise f m) 8 ≡ (has m 8 || has f 8))
unfolding raise
raise_flags f m =
    let old = has-digits f in
    let mask = has-digits m in
    let new = has-digits (bit_or f m) in
    (
      ground (arith, or-digit 0 f m),
      ground (arith, or-digit 1 f m),
      ground (arith, or-digit 2 f m),
      ground (arith, or-digit 3 f m),
    )

-- A test of a constant, which computes.
abbrev pub test : ℕ → ℕ → Bool
test mask bits = bit_and mask bits != 0

pub lower_lem :
    (f m : ℕ)
    → m < 256
    → (has (lower f m) 1 ≡ (not (test m 1) && has f 1))
      × (has (lower f m) 2 ≡ (not (test m 2) && has f 2))
      × (has (lower f m) 4 ≡ (not (test m 4) && has f 4))
      × (has (lower f m) 8 ≡ (not (test m 8) && has f 8))
unfolding has
lower_lem f m h = lower_flags f m h

pub raise_lem :
    (f m : ℕ)
    → (has (raise f m) 1 ≡ (test m 1 || has f 1))
      × (has (raise f m) 2 ≡ (test m 2 || has f 2))
      × (has (raise f m) 4 ≡ (test m 4 || has f 4))
      × (has (raise f m) 8 ≡ (test m 8 || has f 8))
unfolding has
raise_lem f m = raise_flags f m

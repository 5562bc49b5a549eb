-- ===== src/Prelude/Bits.antt =====
-- `&` at variables: one equation for the lowest digit, from which the laws of masks follow.
use Prim.Native.Nat.{
  ℕ, zero, suc, ◌+◌, ◌*◌, ◌-◌, ◌/◌, ◌%◌, ◌^◌, ◌≤◌, ◌<◌, min, bit_and, digits, bit_and-bitwise,
}
use native.Mathlib.Nat.{
  pow-suc, one-le-pow, div-add-mod', mul-add-mod_self_right, mod-eq_of_lt, mod-lt,
}
use mathlib.Core.Path.{◌≡◌, refl, ap, ◌∙◌}
use native.Mathlib.Omega.{arith}

abbrev mask_digits : ℕ → ℕ → ℕ → ℕ
mask_digits = digits (λ y. zero) min

-- Any fuel from the first operand on gives one result.
mask_digits_fuel : (n m a b : ℕ) → a ≤ n → a ≤ m → mask_digits n a b ≡ mask_digits m a b
mask_digits_fuel zero zero a b p q = refl
mask_digits_fuel zero (suc m) zero b p q = refl
mask_digits_fuel zero (suc m) (suc a) b p q = absurd (omega arith)
mask_digits_fuel (suc n) zero zero b p q = refl
mask_digits_fuel (suc n) zero (suc a) b p q = absurd (omega arith)
mask_digits_fuel (suc n) (suc m) zero b p q = refl
mask_digits_fuel (suc n) (suc m) (suc a) b p q =
    omega (arith, mask_digits_fuel n m (suc a / 2) (b / 2) (omega arith) (omega arith))

pub bit_and_step : (a b : ℕ) → bit_and a b ≡ bit_and (a / 2) (b / 2) * 2 + min (a % 2) (b % 2)
bit_and_step zero b = omega (arith, bit_and-bitwise 0 b, bit_and-bitwise 0 (b / 2))
bit_and_step (suc a) b = omega (
  arith,
  bit_and-bitwise (suc a) b,
  bit_and-bitwise (suc a / 2) (b / 2),
  mask_digits_fuel a (suc a / 2) (suc a / 2) (b / 2) (omega arith) (omega arith),
)

below_self : (n a : ℕ) → a ≤ n → bit_and a a ≡ a
below_self n zero h = bit_and-bitwise 0 0
below_self zero (suc a) h = absurd (omega arith)
below_self (suc n) (suc a) h =
    omega (arith, bit_and_step (suc a) (suc a), below_self n (suc a / 2) (omega arith))

pub bit_and_self : (a : ℕ) → bit_and a a ≡ a
bit_and_self a = below_self a a (omega arith)

below_zero : (n a : ℕ) → a ≤ n → bit_and a 0 ≡ 0
below_zero n zero h = bit_and-bitwise 0 0
below_zero zero (suc a) h = absurd (omega arith)
below_zero (suc n) (suc a) h =
    omega (arith, bit_and_step (suc a) 0, below_zero n (suc a / 2) (omega arith))

pub bit_and-zero : (a : ℕ) → bit_and a 0 ≡ 0
bit_and-zero a = below_zero a a (omega arith)

-- The remainder by `2 p` is that of the half by `p`, with the lowest digit put back.
mod-double : (a p : ℕ) → 0 < p → a % (p * 2) ≡ a / 2 % p * 2 + a % 2
mod-double a p h =
    let q = a / 2 / p in
    let c = a / 2 % p * 2 + a % 2 in
    let whole : a ≡ q * (p * 2) + c = grind (arith, div-add-mod' (a / 2) p) in
    ap (λ t. t % (p * 2)) whole
    ∙ mul-add-mod_self_right q (p * 2) c
    ∙ mod-eq_of_lt (omega (arith, mod-lt (a / 2) h))

half_mask : (k : ℕ) → (2 ^ suc k - 1) / 2 ≡ 2 ^ k - 1
half_mask k = omega (arith, pow-suc 2 k)

-- The mask of the `k` low bits is the remainder by `2 ^ k`.
pub bit_and_low : (k a : ℕ) → bit_and a (2 ^ k - 1) ≡ a % 2 ^ k
bit_and_low zero a = omega (arith, bit_and-zero a)
bit_and_low (suc k) a = omega (
  arith,
  bit_and_step a (2 ^ suc k - 1),
  mod-double a (2 ^ k) (one-le-pow k 2 (omega arith)),
  ap (λ t. a % t) (pow-suc 2 k),
  ap (λ t. bit_and (a / 2) t) (half_mask k),
  pow-suc 2 k,
  one-le-pow k 2 (omega arith),
  bit_and_low k (a / 2),
)

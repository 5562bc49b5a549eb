-- ===== src/Prelude/Powers.antt =====
-- Powers of two: the test `x & (x - 1)` decides them, and each divides the larger ones.
use Prim.Native.Nat.{ℕ, zero, suc, ◌+◌, ◌*◌, ◌-◌, ◌/◌, ◌%◌, ◌^◌, ◌≤◌, bit_and, ◌∣◌}
use native.Mathlib.Nat.{pow-suc, dvd_refl, dvd_trans, dvd-mul_right, mod_self}
use mathlib.Core.Path.{◌≡◌, ap, ap₂, ◌∙◌}
use mathlib.Core.Logic.{◌≢◌, ◌⊎◌, inl, inr}
use native.Mathlib.Omega.{arith}
use native.Mathlib.Decide.{dec_le}
use pico_uart.Prelude.Bits.{bit_and_step, bit_and_self, bit_and_low}

abbrev pub IsPowerOfTwo : ℕ → Type 0
IsPowerOfTwo n = (k : ℕ) × (n ≡ 2 ^ k)

even_or_odd : (n : ℕ) → (n ≡ n / 2 * 2) ⊎ (n ≡ n / 2 * 2 + 1)
even_or_odd n = ground arith

odd_clears : (n m : ℕ) → n ≡ m * 2 + 1 → bit_and n (n - 1) ≡ m * 2
odd_clears n m e = omega (
  arith,
  bit_and_step n (n - 1),
  ap₂ bit_and (let p : n / 2 ≡ m = omega arith in p) (let q : (n - 1) / 2 ≡ m = omega arith in q),
  bit_and_self m,
)

even_halves : (n m : ℕ) → n ≡ m * 2 → n ≢ 0 → bit_and n (n - 1) ≡ bit_and m (m - 1) * 2
even_halves n m e h = omega (
  arith,
  bit_and_step n (n - 1),
  ap₂ bit_and (let p : n / 2 ≡ m = omega arith in p)
      (let q : (n - 1) / 2 ≡ m - 1 = omega arith in q),
)

single_bit : (fuel n : ℕ) → n ≤ fuel → n ≢ 0 → bit_and n (n - 1) ≡ 0 → IsPowerOfTwo n
single_bit zero n le h e = absurd (omega arith)
single_bit (suc fuel) n le h e = elim (even_or_odd n) [
  | inl even ↦
      let (k, p) =
        single_bit fuel (n / 2) (omega arith) (omega arith)
          (omega (arith, even_halves n (n / 2) even h)) in
      (suc k, omega (arith, pow-suc 2 k))
  | inr odd ↦ (0, omega (arith, odd_clears n (n / 2) odd))
]

-- A number is a power of two exactly when clearing its lowest bit leaves nothing.
pub IsPowerOfTwo-of_bit_and : (n : ℕ) → n ≢ 0 → bit_and n (n - 1) ≡ 0 → IsPowerOfTwo n
IsPowerOfTwo-of_bit_and n h e = single_bit n n (omega arith) h e

pub bit_and_of_IsPowerOfTwo : (n : ℕ) → IsPowerOfTwo n → bit_and n (n - 1) ≡ 0
bit_and_of_IsPowerOfTwo n (k, e) =
    ap (λ t. bit_and n (t - 1)) e ∙ bit_and_low k n ∙ ap (λ t. t % 2 ^ k) e ∙ mod_self (2 ^ k)

pub two_pow-dvd : (j k : ℕ) → j ≤ k → 2 ^ j ∣ 2 ^ k
two_pow-dvd zero zero h = dvd_refl _
two_pow-dvd (suc j) zero h = absurd (omega arith)
two_pow-dvd j (suc k) h = elim (dec_le j k) [
  | yes le ↦ rw (pow-suc 2 k) (dvd_trans (2 ^ j) (two_pow-dvd j k le) (dvd-mul_right (2 ^ k) 2))
  | no gt ↦ let same : j ≡ suc k = omega arith in rw same (dvd_refl _)
]

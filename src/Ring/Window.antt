-- ===== src/Ring/Window.antt =====
-- Runs of bytes round a storage of `m` places: what a write into the storage does to them.
use native.Mathlib.Nat.{mod-add-mod, mod-eq_of_lt}
use pico_uart.Prelude.{
  ℕ, zero, suc, ◌+◌, ◌-◌, ◌%◌, ◌≤◌, ◌<◌, ◌≡◌, ◌≢◌, ◌∙◌, refl, sym, ap, ap₂, List, [], ◌∷◌, ◌++◌,
  append-nil, append_assoc, length, length-set, get_or, set, get_or-set_self, get_or-set_ne, arith,
}
use pico_uart.Ring.Transfer.{copy_in}

-- The `n` bytes from sequence number `s` on.
unfoldable pub window : List ℕ → ℕ → ℕ → ℕ → List ℕ
window st m s zero = []
window st m s (suc n) = get_or st (s % m) 0 ∷ window st m (s + 1) n

pub length-window : (st : List ℕ) (m s n : ℕ) → length (window st m s n) ≡ n
unfolding window
length-window st m s zero = refl
length-window st m s (suc n) = ap suc (length-window st m (s + 1) n)

-- Only the place of the first byte matters.
pub window_cong : (st : List ℕ) (m s t n : ℕ) → s % m ≡ t % m → window st m s n ≡ window st m t n
unfolding window
window_cong st m s t zero h = refl
window_cong st m s t (suc n) h = ap₂ ◌∷◌ (ap (λ i. get_or st i 0) h) (
    window_cong st m (s + 1) (t + 1) n
      (sym (mod-add-mod s m 1) ∙ ap (λ i. (i + 1) % m) h ∙ mod-add-mod t m 1))

pub window-add :
    (st : List ℕ) (m s a b : ℕ) → window st m s (a + b) ≡ window st m s a ++ window st m (s + a) b
unfolding window
window-add st m s zero b =
    let none_yet : 0 + b ≡ b = omega arith in
    let same : s ≡ s + 0 = omega arith in ap₂ (window st m) same none_yet
window-add st m s (suc a) b =
    let count : suc a + b ≡ suc (a + b) = omega arith in
    let start : s + 1 + a ≡ s + suc a = omega arith in
    ap (window st m s) count
    ∙ ap (λ r. get_or st (s % m) 0 ∷ r)
        (window-add st m (s + 1) a b ∙ ap (λ t. window st m (s + 1) a ++ window st m t b) start)

-- Fewer than `m` steps on is another place.
mod-ne : (m s d : ℕ) → 0 < d → d < m → (s + d) % m ≢ s % m
mod-ne m s d h k e = grind (arith, mod-add-mod s m d)

window-set_ne :
    (st : List ℕ) (m s n i v : ℕ)
    → ((j : ℕ) → j < n → (s + j) % m ≢ i)
    → window (set st i v) m s n ≡ window st m s n
unfolding window
window-set_ne st m s zero i v h = refl
window-set_ne st m s (suc n) i v h =
    ap₂ ◌∷◌ (get_or-set_ne st v 0 (λ e. h 0 (omega arith) (ap (λ t. t % m) (omega arith) ∙ sym e)))
      (window-set_ne st m (s + 1) n i v
        (λ j lt e. h (suc j) (omega arith) (ap (λ t. t % m) (omega arith) ∙ e)))

-- A byte written just past a run extends it.
pub window-set :
    (st : List ℕ) (m s n v : ℕ)
    → length st ≡ m
    → n < m
    → window (set st ((s + n) % m) v) m s (n + 1) ≡ window st m s n ++ (v ∷ [])
unfolding window
window-set st m s n v h k =
    window-add (set st ((s + n) % m) v) m s n 1
    ∙ ap₂ ◌++◌
        (window-set_ne st m s n ((s + n) % m) v (λ j lt e.
          mod-ne m (s + j) (n - j) (omega arith) (omega arith)
            (ap (λ t. t % m) (let p : s + j + (n - j) ≡ s + n = omega arith in p) ∙ sym e)))
        (ap (λ b. b ∷ []) (get_or-set_self st ((s + n) % m) v 0 (omega arith)))

next_place : (m s n off : ℕ) → off ≡ (s + n) % m → off + 1 < m → off + 1 ≡ (s + (n + 1)) % m
next_place m s n off e h =
    let sum : s + n + 1 ≡ s + (n + 1) = omega arith in
    sym (mod-eq_of_lt h) ∙ ap (λ t. (t + 1) % m) e ∙ mod-add-mod (s + n) m 1 ∙ ap (λ t. t % m) sum

-- A copy that stays inside the storage, to the places just past a run, extends it by the bytes.
pub window-copy_in :
    (xs st : List ℕ) (m s n off : ℕ)
    → length st ≡ m
    → n + length xs ≤ m
    → off ≡ (s + n) % m
    → off + length xs ≤ m
    → window (copy_in st off xs) m s (n + length xs) ≡ window st m s n ++ xs
unfolding copy_in
window-copy_in [] st m s n off h fits e inside =
    ap (window st m s) (omega arith) ∙ sym (append-nil (window st m s n))
window-copy_in (x ∷ []) st m s n off h fits e inside =
    ap (λ t. window (set st t x) m s (n + 1)) e ∙ window-set st m s n x h (omega arith)
window-copy_in (x ∷ y ∷ xs) st m s n off h fits e inside =
    let count : n + suc (suc (length xs)) ≡ n + 1 + suc (length xs) = omega arith in
    ap (window (copy_in (set st off x) (off + 1) (y ∷ xs)) m s) count
    ∙ window-copy_in (y ∷ xs) (set st off x) m s (n + 1) (off + 1) (length-set st off x ∙ h)
        (omega arith) (next_place m s n off e (omega arith)) (omega arith)
    ∙ ap (λ t. t ++ (y ∷ xs))
        (ap (λ t. window (set st t x) m s (n + 1)) e ∙ window-set st m s n x h (omega arith))
    ∙ append_assoc (window st m s n) (x ∷ []) (y ∷ xs)

pub length-copy_in : (xs st : List ℕ) (off : ℕ) → length (copy_in st off xs) ≡ length st
unfolding copy_in
length-copy_in [] st off = refl
length-copy_in (x ∷ xs) st off = length-copy_in xs (set st off x) (off + 1) ∙ length-set st off x

-- ===== src/Usb/Hid/Capture/Counters.antt =====
-- Lists of counters, item by item: the three loops over counters of firmware/src/usb/usb_hid.c, the
-- order that they keep, and the totals that agree with raw counters.
use pico_uart.Prelude.{ap, refl, ◌≤◌, ◌%◌, [], u32_mod, ◌≡◌, ◌<◌, arith, length, ◌∷◌, ℕ, List, suc}
use pico_uart.Usb.Hid.Capture.{add_totals, raise_peaks, count_faults, rx_delta}

-- Each 64-bit total has the last raw counter as its low 32 bits.
abbrev pub Agree : List ℕ → List ℕ → Type 0
Agree [] [] = Unit
Agree (total ∷ totals) (previous ∷ previouses) =
    (total % u32_mod ≡ previous) × Agree totals previouses
Agree _ _ = ⊥

-- Item by item, at most
abbrev pub AtMost : List ℕ → List ℕ → Type 0
AtMost [] [] = Unit
AtMost (a ∷ as') (b ∷ bs) = (a ≤ b) × AtMost as' bs
AtMost _ _ = ⊥

abbrev pub AllU32 : List ℕ → Type 0
AllU32 [] = Unit
AllU32 (a ∷ as') = (a < u32_mod) × AllU32 as'

pub refl-AtMost : (xs : List ℕ) → AtMost xs xs
refl-AtMost [] = tt
refl-AtMost (x ∷ xs) = (omega arith, refl-AtMost xs)

pub add-Agree :
    (raws previouses totals : List ℕ)
    → AllU32 raws
    → length raws ≡ length previouses
    → Agree totals previouses
    → Agree (add_totals raws previouses totals) raws
unfolding add_totals
add-Agree [] [] [] u e a = tt
add-Agree (r ∷ rs) (p ∷ ps) (t ∷ ts) (u, us) e (a, as') =
    (omega arith, add-Agree rs ps ts us (omega arith) as')
add-Agree [] (p ∷ ps) ts u e a = absurd (omega arith)
add-Agree (r ∷ rs) [] ts u e a = absurd (omega arith)
add-Agree [] [] (t ∷ ts) u e a = absurd a
add-Agree (r ∷ rs) (p ∷ ps) [] u e a = absurd a

pub raise-AtMost :
    (values peaks : List ℕ) → length values ≡ length peaks → AtMost peaks (raise_peaks values peaks)
unfolding raise_peaks
raise-AtMost [] [] e = tt
raise-AtMost (v ∷ vs) (p ∷ ps) e = (ground arith, raise-AtMost vs ps (omega arith))
raise-AtMost [] (p ∷ ps) e = absurd (omega arith)
raise-AtMost (v ∷ vs) [] e = absurd (omega arith)

pub count-AtMost :
    (raws previouses counts : List ℕ)
    → AllU32 raws
    → AllU32 counts
    → length raws ≡ length counts
    → length previouses ≡ length counts
    → AtMost counts (count_faults raws previouses counts)
      × AllU32 (count_faults raws previouses counts)
      × (length (count_faults raws previouses counts) ≡ length counts)
unfolding count_faults rx_delta
count-AtMost [] [] [] u v e f = (tt, tt, refl)
count-AtMost (r ∷ rs) (p ∷ ps) (c ∷ cs) (u, us) (v, vs) e f =
    let rest = count-AtMost rs ps cs us vs (omega arith) (omega arith) in
    ((ground arith, rest.0), (ground arith, rest.1), omega (arith, rest.2))
count-AtMost (r ∷ rs) ps [] u v e f = absurd (omega arith)
count-AtMost [] ps (c ∷ cs) u v e f = absurd (omega arith)
count-AtMost [] (p ∷ ps) [] u v e f = absurd (omega arith)
count-AtMost (r ∷ rs) [] (c ∷ cs) u v e f = absurd (omega arith)

pub AtMost-length : (xs ys : List ℕ) → AtMost xs ys → length xs ≡ length ys
AtMost-length [] [] h = refl
AtMost-length (x ∷ xs) (y ∷ ys) (h, hs) = ap suc (AtMost-length xs ys hs)
AtMost-length [] (y ∷ ys) h = absurd h
AtMost-length (x ∷ xs) [] h = absurd h

pub trans-AtMost : (xs ys zs : List ℕ) → AtMost xs ys → AtMost ys zs → AtMost xs zs
trans-AtMost [] [] [] h k = tt
trans-AtMost (x ∷ xs) (y ∷ ys) (z ∷ zs) (h, hs) (k, ks) = (omega arith, trans-AtMost xs ys zs hs ks)
trans-AtMost [] [] (z ∷ zs) h k = absurd k
trans-AtMost [] (y ∷ ys) zs h k = absurd h
trans-AtMost (x ∷ xs) [] zs h k = absurd h
trans-AtMost (x ∷ xs) (y ∷ ys) [] h k = absurd k

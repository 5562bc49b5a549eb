-- ===== src/Prelude/Cases.antt =====
-- A predicate on the value of a test, or of a case of an option, with what the case tells.
use mathlib.Core.Path.{◌≡◌, refl}
use mathlib.Core.Option.{Option, none, some}
use mathlib.Core.Bool.{Bool, true, false}
use pico_uart.Prelude.Tests.{if◌then◌else◌}

pub by_test :
    {X : Type 0} (P : X → Type 0) (t : Bool) {p q : X}
    → (t ≡ true → P p)
    → (t ≡ false → P q)
    → P (if t then p else q)
by_test P true h k = h refl
by_test P false h k = k refl

pub by_option :
    {X Y : Type 0} (P : Y → Type 0) (o : Option X) (p : Y) (f : X → Y)
    → (o ≡ none → P p)
    → ((x : X) → o ≡ some x → P (f x))
    → P (elim o as (λ _. Y) [ none ↦ p | some x ↦ f x ])
by_option P none p f h k = h refl
by_option P (some x) p f h k = k x refl

abbrev pub is_some : {A : Type 0} → Option A → Bool
is_some none = false
is_some (some x) = true

-- ===== src/Ring/Write.antt =====
-- `ring_buffer_write`: how many bytes it takes, which, and what the ring holds afterwards.
pub mod Round
use native.Mathlib.Nat.{mod-lt}
use pico_uart.Prelude.{
  ℕ, zero, suc, ◌+◌, ◌-◌, ◌%◌, ◌≤◌, ◌<◌, ◌≡◌, ◌∙◌, refl, sym, ap, ap₂, List, [], ◌∷◌, ◌++◌, length,
  take, drop, min, arith, u32_mod, add32, bit_and, ltb, if◌then◌else◌, true, false, length-take,
  take-add, append-nil, append_assoc, length-append, length-drop, subst,
}
use native.Mathlib.Decide.{dec_lt}
use pico_uart.Ring.{
  Ring, available, free_space, write_span, commit_produced, update_high_watermark, min32, no_span,
  Span,
}
use pico_uart.Ring.Transfer.{copy_in, write_chunk, write_loop, write}
use pico_uart.Ring.Invariant.{
  IsValid, wrap-size, available-le, size_pos, bit_and-mask, update_high_watermark-IsValid,
}
use pico_uart.Ring.Window.{window, window_cong, window-copy_in, length-copy_in}
use pico_uart.Ring.View.{
  contents, tail_window, distance, available_lem, same_place, update_high_watermark_lem,
  free_space_lem,
}
use pico_uart.Ring.Append.{
  Appended, Appended-update_high_watermark, Appended-append, nothing-Appended, unchanged-Appended,
}
use Round.{
  chunk_of, after_chunk, offset-lt, write_chunk_room, write_chunk_full, after_chunk-Appended,
}

write_loop-nil : (rounds : ℕ) (r : Ring) (total : ℕ) → write_loop rounds r [] total ≡ (r, total)
unfolding write_loop
write_loop-nil zero r total = refl
write_loop-nil (suc rounds) r total = refl

write_loop_room :
    (rounds : ℕ) {r : Ring} (x : ℕ) (xs : List ℕ) (total : ℕ)
    → IsValid r
    → available r < r.size
    → let n = chunk_of r (x ∷ xs) in
      write_loop (suc rounds) r (x ∷ xs) total
      ≡ write_loop rounds
          (update_high_watermark (after_chunk r (x ∷ xs)))
          (drop n (x ∷ xs))
          (total + n)
unfolding write_loop
write_loop_room rounds {r} x xs total v h =
    rw (write_chunk_room v (x ∷ xs) h) (ground (arith, offset-lt v))

write_loop_full :
    (rounds : ℕ) {r : Ring} (x : ℕ) (xs : List ℕ) (total : ℕ)
    → IsValid r
    → available r ≡ r.size
    → write_loop (suc rounds) r (x ∷ xs) total ≡ (record r { producer_reserved_count = 0 }, total)
unfolding write_loop
write_loop_full rounds {r} x xs total v h = rw (write_chunk_full v (x ∷ xs) h) (ground arith)

-- The bytes of `bytes` that fit `r`.
abbrev fitting : Ring → List ℕ → ℕ
fitting r bytes = min (length bytes) (r.size - available r)

abbrev Writes : Ring → List ℕ → ℕ → Ring × ℕ → Type 0
Writes r bytes total out =
    (out.1 ≡ total + fitting r bytes) × Appended r out.0 (take (fitting r bytes) bytes)

Writes-none :
    {r r' : Ring} (bytes : List ℕ) (total : ℕ)
    → Appended r r' []
    → fitting r bytes ≡ 0
    → Writes r bytes total (r', total)
Writes-none {r} {r'} bytes total a h =
    (omega arith, subst (λ k. Appended r r' (take k bytes)) (sym h) a)

-- What one round took and what the rounds after it take is what fits at first.
Writes-more :
    {r r' : Ring} (bytes : List ℕ) (n total : ℕ) {out : Ring × ℕ}
    → n ≤ fitting r bytes
    → Appended r r' (take n bytes)
    → Writes r' (drop n bytes) (total + n) out
    → Writes r bytes total out
Writes-more {r} {r'} bytes n total {out} h a w =
    let split : n + fitting r' (drop n bytes) ≡ fitting r bytes =
      omega (arith, a.count, a.size_kept, length-take n bytes, length-drop n bytes) in
    (
      omega (arith, w.0),
      subst (λ t. Appended r out.0 t)
          (sym (take-add n (fitting r' (drop n bytes)) bytes) ∙ ap (λ k. take k bytes) split)
          (Appended-append (take n bytes) (take (fitting r' (drop n bytes)) (drop n bytes)) a w.1),
    )

-- Rounds enough for the bytes that are left: all that fits is appended, in order.
write_loop-Writes :
    (rounds : ℕ) {r : Ring} (bytes : List ℕ) (total : ℕ)
    → IsValid r
    → length bytes ≤ rounds
    → Writes r bytes total (write_loop rounds r bytes total)
write_loop-Writes rounds {r} [] total v h =
    rw (write_loop-nil rounds r total) (Writes-none [] total (unchanged-Appended v) (omega arith))
write_loop-Writes zero {r} (x ∷ xs) total v h = absurd (omega arith)
write_loop-Writes (suc rounds) {r} (x ∷ xs) total v h = elim (dec_lt (available r) r.size) [
  | yes room ↦
      let n = chunk_of r (x ∷ xs) in
      let a = Appended-update_high_watermark (after_chunk-Appended v (x ∷ xs) room) in
      rw (write_loop_room rounds x xs total v room) (
        Writes-more (x ∷ xs) n total (omega arith) a (
          write_loop-Writes rounds (drop n (x ∷ xs)) (total + n) a.valid
            (omega (arith, length-drop n (x ∷ xs), offset-lt v))))
  | no full ↦
      let e : available r ≡ r.size = omega (arith, available-le v) in
      rw (write_loop_full rounds x xs total v e)
        (Writes-none (x ∷ xs) total (nothing-Appended 0 v (omega arith)) (omega arith))
]

-- `ring_buffer_write` takes as many bytes as there is room for, and appends exactly those, in order.
pub write_lem :
    {r : Ring} (bytes : List ℕ)
    → IsValid r
    → let (r', count) = write r bytes in
      (count ≡ min (length bytes) (free_space r)) × Appended r r' (take count bytes)
unfolding write
write_lem {r} bytes v = ground (arith, write_loop-Writes (length bytes) bytes 0 v, free_space_lem v)

-- ===== src/Ring/Read.antt =====
-- `ring_buffer_read`: which bytes it copies out, and what the ring holds afterwards.
pub mod Round
use native.Mathlib.Decide.{dec_lt}
use pico_uart.Prelude.{
  [], ℕ, List, refl, eq-nil_of_length, zero, append_assoc, ◌<◌, take-append_le, subst, ◌∙◌,
  append-nil, ap, arith, sym, ◌-◌, ◌++◌, suc, take, ◌≤◌, length, ◌≡◌,
}
use pico_uart.Ring.{Ring, recover_overflow, available}
use pico_uart.Ring.Transfer.{read_loop, read}
use pico_uart.Ring.Invariant.{IsValid}
use pico_uart.Ring.View.{contents, length-contents}
use pico_uart.Ring.Recover.{recover_overflow_lem, Recovered}
use pico_uart.Ring.Remove.{
  Removed, Removed-append, Recovered-Removed, unchanged-Removed, Removed-consumer_reserved,
}
use Round.{
  length-taken, taken, offset-lt, read_chunk_some, read_chunk_none, read_span_recovers, after_read,
  after_read-Removed, readable,
}

-- What the rounds from `r` on return: the oldest `wanted` bytes, behind those copied before.
abbrev Reads : Ring → ℕ → List ℕ → Ring × List ℕ → Type 0
Reads r wanted out res =
    (res.1 ≡ out ++ take wanted (contents r)) × Removed r res.0 (take wanted (contents r))

Reads-none :
    {r r' : Ring} (wanted : ℕ) (out : List ℕ)
    → Removed r r' []
    → take wanted (contents r) ≡ []
    → Reads r wanted out (r', out)
Reads-none {r} {r'} wanted out a h =
    (sym (append-nil out) ∙ ap (λ t. out ++ t) (sym h), subst (λ t. Removed r r' t) (sym h) a)

Reads-more :
    {r r' : Ring} (bytes : List ℕ) (wanted : ℕ) (out : List ℕ) {res : Ring × List ℕ}
    → length bytes ≤ wanted
    → Removed r r' bytes
    → Reads r' (wanted - length bytes) (out ++ bytes) res
    → Reads r wanted out res
Reads-more {r} {r'} bytes wanted out {res} h a w =
    let all : take wanted (contents r) ≡ bytes ++ take (wanted - length bytes) (contents r') =
      ap (take wanted) a.bytes ∙ take-append_le bytes (contents r') wanted h in
    (
      w.0
          ∙ append_assoc out bytes (take (wanted - length bytes) (contents r'))
          ∙ ap (λ t. out ++ t) (sym all),
      subst (λ t. Removed r res.0 t) (sym all)
          (Removed-append bytes (take (wanted - length bytes) (contents r')) a w.1),
    )

read_loop_zero : (rounds : ℕ) (r : Ring) (out : List ℕ) → read_loop rounds r 0 out ≡ (r, out)
unfolding read_loop
read_loop_zero zero r out = refl
read_loop_zero (suc rounds) r out = refl

module _ {r : Ring} (v : IsValid r) (rounds k : ℕ) (out : List ℕ) where
  abbrev recovered : Ring
  recovered = (recover_overflow r).0

  read_loop_some :
      0 < available recovered
      → let b = taken recovered (suc k) in
        read_loop (suc rounds) r (suc k) out
        ≡ read_loop rounds (after_read recovered (suc k)) (suc k - length b) (out ++ b)
  unfolding read_loop
  read_loop_some h =
      let c = (recover_overflow_lem v).1 in
      rw (read_chunk_some r c.valid c.fits (read_span_recovers v) (suc k) h)
        (ground (arith, length-taken c.valid c.fits (suc k), offset-lt c.valid))

  read_loop_none :
      available recovered ≡ 0
      → read_loop (suc rounds) r (suc k) out
        ≡ (record recovered { consumer_reserved_count = 0 }, out)
  unfolding read_loop
  read_loop_none h =
      let c = (recover_overflow_lem v).1 in
      rw (read_chunk_none r c.valid c.fits (read_span_recovers v) (suc k) h) (ground arith)

-- Rounds enough for the bytes wanted.
read_loop-Reads :
    (rounds : ℕ) {r : Ring} (wanted : ℕ) (out : List ℕ)
    → IsValid r
    → wanted ≤ rounds
    → Reads r wanted out (read_loop rounds r wanted out)
unfolding read_loop
read_loop-Reads rounds {r} zero out v h =
    rw (read_loop_zero rounds r out) (Reads-none 0 out (unchanged-Removed v) refl)
read_loop-Reads zero {r} (suc k) out v h = absurd (omega arith)
read_loop-Reads (suc rounds) {r} (suc k) out v h =
    let c = (recover_overflow_lem v).1 in
    let R = (recover_overflow r).0 in
    elim (dec_lt 0 (available r)) [
      | yes some_left ↦
          let room : 0 < available R = omega (arith, c.count) in
          let b = taken R (suc k) in
          let a =
            Removed-append [] b (Recovered-Removed c) (after_read-Removed c.valid c.fits (suc k)) in
          rw (read_loop_some v rounds k out room) (
            Reads-more b (suc k) out (omega (arith, length-taken c.valid c.fits (suc k))) a (
              read_loop-Reads rounds (suc k - length b) (out ++ b) a.valid
                (omega (arith, length-taken c.valid c.fits (suc k), offset-lt c.valid))))
      | no empty ↦ rw (read_loop_none v rounds k out (omega (arith, c.count))) (
          Reads-none (suc k) out (Removed-consumer_reserved 0 (omega arith) (Recovered-Removed c))
            (ap (take (suc k)) (eq-nil_of_length (contents r) (omega (arith, length-contents r)))))
    ]

-- `ring_buffer_read` copies out the oldest `wanted` bytes that the ring holds, or all that it
-- holds, and leaves the others; a byte that was overwritten is neither returned nor forgotten.
pub read_lem :
    {r : Ring} (wanted : ℕ)
    → IsValid r
    → let (r', bytes) = read r wanted in
      (bytes ≡ take wanted (contents r)) × Removed r r' (take wanted (contents r))
unfolding read
read_lem wanted v = read_loop-Reads wanted wanted [] v (omega arith)

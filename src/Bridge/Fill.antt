-- ===== src/Bridge/Fill.antt =====
-- Filling the transmit ring loses no byte.
use pico_uart.Ring.Append.{nothing-Appended, Appended-update_high_watermark, Appended}
use native.Mathlib.Decide.{dec_lt}
use pico_uart.Prelude.{
  append-nil, subst, take-nil, false, sym, append_assoc, ◌∙◌, ap, ◌++◌, take_all, ◌∷◌, ◌⊎◌, [], ◌≤◌,
  bit_and, ◌-◌, min, ◌<◌, zero, inr, inl, ltb, ◌||◌, ◌==◌, Bool-cases, ◌+◌, suc, List, ℕ, refl, ◌≡◌,
  arith,
}
use pico_uart.Ring.{pending_overflow, Ring, available, commit_produced, update_high_watermark}
use pico_uart.Ring.Transfer.{copy_in}
use pico_uart.Ring.Invariant.{available-le, IsValid}
use pico_uart.Ring.View.{contents}
use pico_uart.Ring.Write.Round.{
  write_span_room, write_span_full, after_chunk-Appended, chunk_of, after_chunk, offset-lt,
}
use pico_uart.Bridge.{
  take, Span, fill_taken, length, Moved, bridge_loop, fill_round, fill_tx, offered_bytes,
}

-- An invariant of the round is one of the loop.
loop_keeps {ℓ} :
    {X : Type ℓ} (P : X → Type 0) (round : ℕ → X → Moved X)
    → ((total : ℕ) (x : X) → P x → P (round total x).state)
    → (rounds capacity total : ℕ) (x : X) → P x
    → P (bridge_loop rounds round capacity total x).0
unfolding bridge_loop
loop_keeps P round keeps zero capacity total x h = h
loop_keeps P round keeps (suc rounds) capacity total x h =
    let m = round total x in
    let now = keeps total x h in
    let rest = loop_keeps P round keeps rounds capacity (total + m.moved) m.state now in
    elim (Bool-cases (capacity == 0 || ltb total capacity)) [
      | inl c ↦ rw c (elim (Bool-cases m.goes_on) [ inl g ↦ rw g rest | inr g ↦ rw g now ])
      | inr c ↦ rw c h
    ]

-- What the commit of the bytes at the span does, where the reader gave at most what was offered.
taken_lem :
    {S : Type 0} {r : Ring} (offered : ℕ) (s : S) (bytes : List ℕ)
    → IsValid r
    → available r < r.size
    → let n = min (r.size - available r) (r.size - bit_and r.producer r.mask) in
      offered ≤ n
      → length bytes ≤ offered
      → let r1 = record r {
        producer_reserved_sequence = r.producer;
        producer_reserved_count = n;
      } in
        let span : Span = record { offset = bit_and r.producer r.mask; count = n } in
        ((bytes ≡ []) × ((fill_taken r1 span offered s bytes).state ≡ (r1, s)))
        ⊎ ((fill_taken r1 span offered s bytes).state
            ≡ (update_high_watermark (after_chunk r bytes), s))
unfolding fill_taken commit_produced copy_in
taken_lem offered s [] v h o l = inl (refl, rw (take-nil ℕ offered) refl)
taken_lem {r = r} offered s (x ∷ xs) v h o l =
    let all : take offered (x ∷ xs) ≡ x ∷ xs = take_all offered (x ∷ xs) l in
    let chunk : chunk_of r (x ∷ xs) ≡ length (x ∷ xs) = omega (arith, offset-lt v) in
    let same : take (chunk_of r (x ∷ xs)) (x ∷ xs) ≡ x ∷ xs =
      take_all (chunk_of r (x ∷ xs)) (x ∷ xs) (omega arith) in
    inr (rw all (rw same (ground (arith, chunk, offset-lt v))))

-- The ring is valid, and its bytes with those that are still to be read are `bytes`.
abbrev Pending : {S : Type 0} → (S → List ℕ) → List ℕ → Ring × S → Type 0
Pending source bytes (r, s) = IsValid r × (contents r ++ source s ≡ bytes)

reserved-Appended :
    {r : Ring} (n : ℕ)
    → IsValid r
    → n ≤ r.size
    → Appended r
        (record r { producer_reserved_sequence = r.producer; producer_reserved_count = n })
        []
unfolding available pending_overflow
reserved-Appended {r} n v h = record {
  valid = ground arith;
  bytes = sym (append-nil (contents r));
  size_kept = refl;
  count = omega arith;
  lost_kept = refl;
  reach_kept = omega arith;
}

module _ {S : Type 0} (reader : S → ℕ → S × List ℕ) (source : S → List ℕ)
    (bounded : (s : S) (n : ℕ) → length (reader s n).1 ≤ n)
    (in_order : (s : S) (n : ℕ) → source s ≡ (reader s n).1 ++ source (reader s n).0) where
  offered-le : (capacity total n : ℕ) → offered_bytes capacity total n ≤ n
  unfolding offered_bytes
  offered-le capacity total n = ground arith

  Appended-Pending :
      {r r' : Ring} (s : S) (n : ℕ) (bytes : List ℕ)
      → Appended r r' (reader s n).1
      → contents r ++ source s ≡ bytes
      → Pending source bytes (r', (reader s n).0)
  Appended-Pending {r} s n bytes a e = (
    a.valid,
    ap (λ c. c ++ source (reader s n).0) a.bytes
        ∙ append_assoc (contents r) (reader s n).1 (source (reader s n).0)
        ∙ sym (ap (λ t. contents r ++ t) (in_order s n))
        ∙ e,
  )

  round-Pending :
      (capacity total : ℕ) (bytes : List ℕ) (x : Ring × S)
      → Pending source bytes x
      → Pending source bytes (fill_round reader capacity total x).state
  unfolding fill_round
  round-Pending capacity total bytes (r, s) (v, e) = elim (dec_lt (available r) r.size) [
    | yes room ↦
        let n = min (r.size - available r) (r.size - bit_and r.producer r.mask) in
        let some_room : (n == 0) ≡ false = ground (arith, offset-lt v) in
        let offered = offered_bytes capacity total n in
        let within : offered ≤ n = offered-le capacity total n in
        let given = (reader s offered).1 in
        let few : length given ≤ offered = bounded s offered in
        let chunk : chunk_of r given ≡ length given = omega (arith, offset-lt v) in
        rw (write_span_room v room) (
          rw some_room (elim (taken_lem offered (reader s offered).0 given v room within few) [
            | inl (nil, st) ↦ rw st (
                Appended-Pending s offered bytes
                  (subst
                    (λ b.
                      Appended r
                        (record r {
                          producer_reserved_sequence = r.producer;
                          producer_reserved_count = n;
                        })
                        b)
                    (sym nil) (reserved-Appended n v (omega arith)))
                  e)
            | inr st ↦ rw st (
                Appended-Pending s offered bytes
                  (Appended-update_high_watermark (
                    subst (λ b. Appended r (after_chunk r given) b)
                      (take_all (chunk_of r given) given (omega arith))
                      (after_chunk-Appended v given room)))
                  e)
          ]))
    | no full ↦
        let over : available r ≡ r.size = omega (arith, available-le v) in
        let a = nothing-Appended 0 v (omega arith) in
        rw (write_span_full v over)
          (a.valid, ap (λ c. c ++ source s) (a.bytes ∙ append-nil (contents r)) ∙ e)
  ]

-- If the reader gives at most what it is offered, and the next bytes of its source, then filling
-- the transmit ring keeps it valid and moves the next bytes of the source behind those in the ring:
-- the ring's bytes followed by the source's are as before, for any number of rounds.
pub fill_tx_keeps :
    {S : Type 0} (reader : S → ℕ → S × List ℕ) (source : S → List ℕ)
    → ((s : S) (n : ℕ) → length (reader s n).1 ≤ n)
    → ((s : S) (n : ℕ) → source s ≡ (reader s n).1 ++ source (reader s n).0)
    → (rounds capacity : ℕ) (r : Ring) (s : S) → IsValid r
    → let ((r', s'), total) = fill_tx reader rounds capacity (r, s) in
      IsValid r' × (contents r' ++ source s' ≡ contents r ++ source s)
unfolding fill_tx
fill_tx_keeps reader source bounded in_order rounds capacity r s v =
    loop_keeps (Pending source (contents r ++ source s)) (fill_round reader capacity)
      (λ total x h. round-Pending reader source bounded in_order capacity total _ x h) rounds
      capacity 0 (r, s) (v, refl)

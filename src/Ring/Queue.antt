-- ===== src/Ring/Queue.antt =====
-- A bounded log of bytes, oldest first, as the contract of the ring: no sequence of calls of the
-- ring tells it from this log.
use pico_uart.Prelude.{
  refl, ◌∙◌, sym, take-append-drop, ap, u32_max, [], arith, drop, ◌-◌, u32_mod, length, take, min,
  ◌++◌, ◌≤◌, ◌<◌, ◌∷◌, List, ◌+◌, ℕ, ◌≡◌,
}
use pico_uart.Ring.{Ring, recover_overflow, write_byte_overwrite}
use pico_uart.Ring.Transfer.{write, read}
use pico_uart.Ring.Invariant.{IsValid}
use pico_uart.Ring.View.{contents, lost, reach, length-contents, free_space_lem}
use pico_uart.Ring.Remove.{Recovered-Removed}
use pico_uart.Ring.Recover.{recover_overflow_lem}
use pico_uart.Ring.Write.{write_lem}
use pico_uart.Ring.Read.{read_lem}
use pico_uart.Ring.Overwrite.{newest, write_byte_overwrite_lem}

-- A client's calls, and what it sees of each.
pub data Op : Type 0 where
  put : List ℕ → Op
  overwrite : ℕ → Op
  get : ℕ → Op
  recover : Op

pub data Reply : Type 0 where
  written : ℕ → Reply
  copied : List ℕ → Reply
  done : Reply

-- The unread bytes, and the number of bytes lost, which stays at its maximum.
pub record Log : Type 0 where
  pub bytes : List ℕ
  pub gone : ℕ

unfoldable pub log_step : ℕ → Log → Op → Log × Reply
log_step cap l (put xs) =
    let n = min (length xs) (cap - length l.bytes) in
    (record l { bytes = l.bytes ++ take n xs }, written n)
log_step cap l (overwrite x) = (
  record {
    bytes = newest cap (l.bytes ++ (x ∷ []));
    gone = min (l.gone + (length l.bytes + 1 - cap)) u32_max;
  },
  done,
)
log_step cap l (get n) = (record l { bytes = drop n l.bytes }, copied (take n l.bytes))
log_step cap l recover = (l, done)

unfoldable pub ring_step : Ring → Op → Ring × Reply
ring_step r (put xs) = let (r', n) = write r xs in (r', written n)
ring_step r (overwrite x) = (write_byte_overwrite r x, done)
ring_step r (get n) = let (r', xs) = read r n in (r', copied xs)
ring_step r recover = ((recover_overflow r).0, done)

unfoldable pub log_run : ℕ → Log → List Op → Log × List Reply
log_run cap l [] = (l, [])
log_run cap l (op ∷ ops) =
    let (l', reply) = log_step cap l op in
    let (l'', replies) = log_run cap l' ops in (l'', reply ∷ replies)

unfoldable pub ring_run : Ring → List Op → Ring × List Reply
ring_run r [] = (r, [])
ring_run r (op ∷ ops) =
    let (r', reply) = ring_step r op in
    let (r'', replies) = ring_run r' ops in (r'', reply ∷ replies)

abbrev pub log_of : Ring → Log
log_of r = record { bytes = contents r; gone = lost r }

-- How far a call can move the counters apart.
abbrev pub weight : Op → ℕ
weight (overwrite x) = 1
weight _ = 0

abbrev pub overwrites : List Op → ℕ
overwrites [] = 0
overwrites (op ∷ ops) = weight op + overwrites ops

pub record StepRefines (r r' : Ring) (op : Op) (reply : Reply) : Type 0 where
  pub valid : IsValid r'
  pub same_size : r'.size ≡ r.size
  pub agrees : log_step r.size (log_of r) op ≡ (log_of r', reply)
  pub near : reach r' ≤ reach r + weight op

append_cancel : (xs ys zs : List ℕ) → xs ++ ys ≡ xs ++ zs → ys ≡ zs
append_cancel [] ys zs h = h
append_cancel (x ∷ xs) ys zs h = append_cancel xs ys zs (cc)

drop_of_split : (xs zs : List ℕ) (n : ℕ) → xs ≡ take n xs ++ zs → drop n xs ≡ zs
drop_of_split xs zs n e = append_cancel (take n xs) (drop n xs) zs (take-append-drop n xs ∙ e)

agree :
    {l l' : Log} {p q : Reply}
    → l.bytes ≡ l'.bytes
    → l.gone ≡ l'.gone
    → p ≡ q
    → ◌≡◌ {A = Log × Reply} (l, p) (l', q)
agree b g e = λ i. (record { bytes = b i; gone = g i }, e i)

step_refines :
    {r : Ring} (op : Op)
    → IsValid r
    → reach r + weight op < u32_mod
    → StepRefines r (ring_step r op).0 op (ring_step r op).1
unfolding ring_step log_step
step_refines {r} (put xs) v h =
    let (count, a) = write_lem xs v in
    let n = (write r xs).1 in
    let e : n ≡ min (length xs) (r.size - length (contents r)) =
      omega (arith, free_space_lem v, length-contents r) in
    record {
      valid = a.valid;
      same_size = a.size_kept;
      agrees =
          agree (ap (λ k. contents r ++ take k xs) (sym e) ∙ sym a.bytes) (sym a.lost_kept)
            (ap written (sym e));
      near = omega (arith, a.reach_kept);
    }
step_refines {r} (overwrite x) v h =
    let o = write_byte_overwrite_lem x v (omega arith) in
    record { valid = o.0; same_size = o.3; agrees = agree (sym o.1) (sym o.2) refl; near = o.4 }
step_refines {r} (get n) v h =
    let (e, a) = read_lem n v in
    record {
      valid = a.valid;
      same_size = a.size_kept;
      agrees =
          agree (drop_of_split (contents r) (contents (read r n).0) n a.bytes) (sym a.lost_kept)
            (ap copied (sym e));
      near = omega (arith, a.reach_kept);
    }
step_refines {r} recover v h =
    let a = Recovered-Removed (recover_overflow_lem v).1 in
    record {
      valid = a.valid;
      same_size = a.size_kept;
      agrees = agree a.bytes (sym a.lost_kept) refl;
      near = omega (arith, a.reach_kept);
    }

-- Any sequence of writes, reads, overwriting writes and recoveries returns what the bounded log
-- returns, and leaves the ring holding what the log holds, as long as the counters cannot come
-- 2^32 apart.
pub run_refines :
    (ops : List Op) {r : Ring}
    → IsValid r
    → reach r + overwrites ops < u32_mod
    → let (r', replies) = ring_run r ops in
      IsValid r' × (log_run r.size (log_of r) ops ≡ (log_of r', replies))
unfolding ring_run log_run
run_refines [] v h = (v, refl)
run_refines (op ∷ ops) {r} v h =
    let s = step_refines op v (omega arith) in
    let (v', e) = run_refines ops s.valid (omega (arith, s.near)) in
    (
      v',
      rw s.agrees (
          ap (λ (out : Log × List Reply). (out.0, (ring_step r op).1 ∷ out.1))
            (ap (λ cap. log_run cap (log_of (ring_step r op).0) ops) (sym s.same_size) ∙ e)),
    )

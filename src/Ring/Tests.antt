-- ===== src/Ring/Tests.antt =====
-- Runs of the ring: four bytes of storage, half filled and run over.
use pico_uart.Ring.Write.{write_lem}
use pico_uart.Ring.Append.{Appended}
use pico_uart.Ring.Commit.{commit_snapshot_lem}
use pico_uart.Ring.Read.{read_lem}
use pico_uart.Ring.Overwrite.{write_byte_overwrite_lem, newest}
use pico_uart.Ring.Remove.{Removed}
use pico_uart.Ring.View.{reach, lost, distance, contents}
use pico_uart.Ring.Invariant.{IsValid}
use pico_uart.Prelude.{
  length, u32_max, ℕ, max, false, sub32, ◌++◌, ◌+◌, min, ◌-◌, ◌≤◌, [], ◌↔◌, take, ◌∷◌, List, true,
  refl, ◌≡◌, arith,
}
use pico_uart.Ring.{free_space, Ring, write_byte_overwrite, commit_snapshot_consumed}
use pico_uart.Ring.Queue.{run_refines, log_of, Op, log_run, ring_run, put, get, overwrite, recover}
use pico_uart.Ring.Transfer.{read, write}

-- Two bytes wait, and both spans are out.
abbrev half : Ring
half = record {
  storage = 10 ∷ 11 ∷ 0 ∷ 0 ∷ [];
  size = 4;
  mask = 3;
  producer = 2;
  consumer = 0;
  high_watermark = 2;
  overflow_count = 0;
  producer_reserved_sequence = 2;
  producer_reserved_count = 2;
  consumer_reserved_sequence = 0;
  consumer_reserved_count = 2;
}

-- The producer is six bytes ahead, past the end of the counters, and four bytes are reserved.
abbrev lapped : Ring
lapped = record {
  storage = 16 ∷ 17 ∷ 14 ∷ 15 ∷ [];
  size = 4;
  mask = 3;
  producer = 2;
  consumer = 0xffff_fffc;
  high_watermark = 4;
  overflow_count = 1;
  producer_reserved_sequence = 2;
  producer_reserved_count = 0;
  consumer_reserved_sequence = 0xffff_fffc;
  consumer_reserved_count = 4;
}

half-IsValid : IsValid half
half-IsValid = record {
  power = (2, refl);
  size_fits = omega arith;
  mask_low = refl;
  stored = refl;
  producer_fits = omega arith;
  consumer_fits = omega arith;
  overflow_fits = omega arith;
  watermark_fits = omega arith;
  readable_fits = omega arith;
  writable_fits = omega arith;
}

lapped-IsValid : IsValid lapped
lapped-IsValid = record {
  power = (2, refl);
  size_fits = omega arith;
  mask_low = refl;
  stored = refl;
  producer_fits = omega arith;
  consumer_fits = omega arith;
  overflow_fits = omega arith;
  watermark_fits = omega arith;
  readable_fits = omega arith;
  writable_fits = omega arith;
}

abbrev traffic : List Op
traffic = put (1 ∷ 2 ∷ 3 ∷ []) ∷ overwrite 4 ∷ get 2 ∷ overwrite 5 ∷ recover ∷ get 9 ∷ []

run_refines_example :
    let (r', replies) = ring_run half traffic in
    IsValid r' × (log_run 4 (log_of half) traffic ≡ (log_of r', replies))
run_refines_example = run_refines traffic half-IsValid (omega arith)

write_lem_example :
    let (r', count) = write half (1 ∷ 2 ∷ 3 ∷ []) in
    (count ≡ min 3 (free_space half)) × Appended half r' (take count (1 ∷ 2 ∷ 3 ∷ []))
write_lem_example = write_lem (1 ∷ 2 ∷ 3 ∷ []) half-IsValid

read_lem_example :
    let (r', bytes) = read lapped 3 in
    (bytes ≡ take 3 (contents lapped)) × Removed lapped r' (take 3 (contents lapped))
read_lem_example = read_lem 3 lapped-IsValid

write_byte_overwrite_lem_example :
    let r' = write_byte_overwrite lapped 18 in
    IsValid r'
    × (contents r' ≡ newest 4 (contents lapped ++ (18 ∷ [])))
    × (lost r' ≡ min (lost lapped + (length (contents lapped) + 1 - 4)) u32_max)
    × (r'.size ≡ 4)
    × (reach r' ≤ reach lapped + 1)
write_byte_overwrite_lem_example = write_byte_overwrite_lem 18 lapped-IsValid (omega arith)

commit_snapshot_lem_example :
    let (r', accepted) = commit_snapshot_consumed lapped 3 in
    ((accepted ≡ true) ↔ (
      (lapped.consumer ≡ lapped.consumer_reserved_sequence) × (3 ≤ lapped.consumer_reserved_count)))
    × (accepted ≡ false → r' ≡ lapped)
    × (accepted ≡ true
        → (sub32 r'.consumer lapped.consumer ≡ max 3 (distance lapped - 4))
          × (r'.overflow_count ≡ min (lapped.overflow_count + (distance lapped - 4 - 3)) u32_max))
commit_snapshot_lem_example = commit_snapshot_lem 3 lapped-IsValid (omega arith)

abbrev two_bytes : List ℕ
two_bytes = 0 ∷ 0 ∷ []

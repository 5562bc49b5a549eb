-- ===== src/Ring/Recover.antt =====
-- `ring_buffer_recover_overflow`: the consumer gives up the bytes that were overwritten.
use pico_uart.Prelude.{◌-◌, arith, ◌≤◌, ◌≡◌}
use pico_uart.Ring.{Ring, recover_overflow, pending_overflow, available}
use pico_uart.Ring.Invariant.{IsValid, recover_overflow-IsValid}
use pico_uart.Ring.View.{contents_cong, contents, lost, distance, pending_overflow_lem}

-- What holds of the ring after a recovery.
pub record Recovered (r r' : Ring) : Type 0 where
  pub valid : IsValid r'
  pub bytes : contents r' ≡ contents r
  pub size_kept : r'.size ≡ r.size
  pub storage_kept : r'.storage ≡ r.storage
  pub producer_kept : r'.producer ≡ r.producer
  pub count : available r' ≡ available r
  pub fits : distance r' ≤ r'.size
  pub lost_kept : lost r' ≡ lost r

recover_available : {r : Ring} → IsValid r → available (recover_overflow r).0 ≡ available r
unfolding recover_overflow available pending_overflow
recover_available v = ground arith

recover_storage : (r : Ring) → (recover_overflow r).0.storage ≡ r.storage
unfolding recover_overflow
recover_storage r = ground arith

recover_size : (r : Ring) → (recover_overflow r).0.size ≡ r.size
unfolding recover_overflow
recover_size r = ground arith

recover_producer : (r : Ring) → (recover_overflow r).0.producer ≡ r.producer
unfolding recover_overflow
recover_producer r = ground arith

-- Recovery reports the bytes that were overwritten, moves them from the pending ones to the count,
-- and leaves what the ring holds.
pub recover_overflow_lem :
    {r : Ring}
    → IsValid r
    → let (r', overwritten) = recover_overflow r in
      (overwritten ≡ distance r - r.size) × Recovered r r' × (pending_overflow r' ≡ 0)
recover_overflow_lem {r} v = (
  unfold recover_overflow in ground (arith, pending_overflow_lem r),
  record {
    valid = recover_overflow-IsValid v;
    bytes =
        contents_cong r (recover_overflow r).0 (recover_storage r) (recover_size r)
          (recover_producer r) (recover_available v);
    size_kept = recover_size r;
    storage_kept = recover_storage r;
    producer_kept = recover_producer r;
    count = recover_available v;
    fits = unfold recover_overflow pending_overflow in ground arith;
    lost_kept = unfold recover_overflow pending_overflow in ground arith;
  },
  unfold recover_overflow pending_overflow in ground arith,
)

-- ===== src/Control.antt =====
-- Control requests between the cores: the one-slot mailbox of firmware/src/uart/control/mailbox.c
-- and the rules of firmware/src/uart/control/ownership.h.
-- The pointers of the C functions are not null here.
pub mod Flags
pub mod Mailbox
pub mod Status
mod Tests
use Prim.Native.Nat.{bit_or}
use pico_uart.LineCoding.{LineCoding}
use pico_uart.Prelude.{
  ◌-◌, ◌||◌, ◌!=◌, true, if◌then◌else◌, add32, ◌==◌, bit_and, not, ◌&&◌, ℕ, false, Bool,
}

-- `uart_control_mailbox_request_t`
pub record Request : Type 0 where
  pub port_id : ℕ
  pub control_generation : ℕ
  pub tx_boundary_sequence : ℕ
  pub line_coding : LineCoding

-- `uart_control_mailbox_t`
pub record Slot : Type 0 where
  pub occupied : Bool
  pub request : Request

abbrev pub zero_request : Request
zero_request = record {
  port_id = 0;
  control_generation = 0;
  tx_boundary_sequence = 0;
  line_coding = record { baud_rate = 0; data_bits = 0; stop_bits = 0; parity = 0 };
}

unfoldable pub reset : Slot → Slot
reset mailbox = record { occupied = false; request = zero_request }

unfoldable pub can_publish : Slot → Bool
can_publish mailbox = not mailbox.occupied

unfoldable pub publish : Slot → Request → Bool × Slot
publish mailbox request =
    if not (can_publish mailbox)
    then (false, mailbox)
    else (true, record { occupied = true; request = request })

-- The result, the slot, and the caller's request variable.
unfoldable pub take_request : Slot → Request → Bool × Slot × Request
take_request mailbox request =
    if not mailbox.occupied
    then (false, mailbox, request)
    else (true, record { occupied = false; request = mailbox.request }, mailbox.request)

unfoldable pub has_pending_port : Slot → ℕ → Bool
has_pending_port mailbox port_id = mailbox.occupied && mailbox.request.port_id == port_id

unfoldable pub pending_should_clear : Bool → Bool → Bool → Bool
pending_should_clear soft_pending mailbox_pending worker_pending =
    not soft_pending && not mailbox_pending && not worker_pending

unfoldable pub tx_should_block : ℕ → ℕ → Bool
tx_should_block status_flags control_pending_bit = bit_and status_flags control_pending_bit != 0

unfoldable pub tx_boundary_drained : ℕ → ℕ → Bool
tx_boundary_drained consumer_sequence boundary_sequence = consumer_sequence == boundary_sequence

unfoldable pub worker_should_set_deadline : Bool → Bool → Bool
worker_should_set_deadline was_pending same_request = not was_pending || not same_request

unfoldable pub completion_is_current : ℕ → ℕ → Bool
completion_is_current completion_generation latest_generation =
    completion_generation == latest_generation

-- `(uint8_t)~bit` is `255 - bit` for a byte.
unfoldable pub apply_completion_error : ℕ → ℕ → ℕ → ℕ → Bool → ℕ
apply_completion_error status_flags control_error_bit completion latest success =
    if not (completion_is_current completion latest)
    then status_flags
    else if success
    then bit_and status_flags (255 - control_error_bit)
    else bit_or status_flags control_error_bit

-- The generation and the flags afterwards.
unfoldable pub apply_reject_error : ℕ → ℕ → ℕ → ℕ × ℕ
apply_reject_error generation status_flags control_error_bit =
    (add32 generation 1, bit_or status_flags control_error_bit)

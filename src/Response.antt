-- ===== src/Response.antt =====
-- The `Response` class of src/response.cpp. The offset of a bit is as the source has it: it counts
-- from the function code.
pub mod Laws
use libmodbuspp.Base.{ℕ, ◌+◌, ◌*◌, ◌/◌, ◌%◌, bit_or, Bool, true, List, pos, Outcome, ok, ◌>>=◌}
use libmodbuspp.Base.Loops.{collect, store}
use libmodbuspp.Message.{Message, byte, word, set_byte, set_word, set_function, function}
use libmodbuspp.Request.{test_bit, with_bit}

-- `Response (const Request &)`: a copy that is marked as a response.
unfoldable pub from_request : Message → Message
from_request m = record m { is_response = true }

unfoldable pub set_byte_count : Message → ℕ → Outcome Message
set_byte_count m n = set_byte m (pos 1) n

unfoldable pub set_register_value : Message → ℕ → ℕ → Outcome Message
set_register_value m i value = set_word m (pos (2 + i * 2)) value

unfoldable pub set_register_values : Message → ℕ → ℕ → List ℕ → Outcome Message
set_register_values m i quantity value = store set_register_value m i 0 quantity value

unfoldable pub set_bit_value : Message → ℕ → Bool → Outcome Message
set_bit_value m i value = do
  b ← byte m (pos (i / 8))
  set_byte m (pos (i / 8)) (with_bit b (i % 8) value)

unfoldable pub set_bit_values : Message → ℕ → ℕ → List Bool → Outcome Message
set_bit_values m i quantity values = store set_bit_value m i 0 quantity values

-- `ExceptionFlag` is 0x80.
unfoldable pub set_exception_code : Message → ℕ → Outcome Message
set_exception_code m code = do
  f ← function m
  m' ← set_function m (bit_or f 0x80)
  set_byte m' (pos 1) code

unfoldable pub exception_code : Message → Outcome ℕ
exception_code m = byte m (pos 1)

unfoldable pub register_value : Message → ℕ → Outcome ℕ
register_value m i = word m (pos (2 + i * 2))

unfoldable pub register_values : Message → ℕ → ℕ → Outcome (List ℕ)
register_values m i quantity = collect register_value m i 0 quantity

unfoldable pub bit_value : Message → ℕ → Outcome Bool
bit_value m i = do b ← byte m (pos (i / 8)); ok (test_bit b (i % 8))

unfoldable pub bit_values : Message → ℕ → ℕ → Outcome (List Bool)
bit_values m i quantity = collect bit_value m i 0 quantity

-- ===== src/Request.antt =====
-- The `Request` class of src/request.cpp: the fields that follow the header of a request's PDU.
pub mod Registers
pub mod Coils
use libmodbuspp.Base.{
  ℕ, ◌+◌, ◌-◌, ◌*◌, ◌/◌, ◌%◌, ◌^◌, bit_and, bit_or, Bool, true, false, not, List, ◌==◌,
  if◌then◌else◌, pos, Outcome, ok, ◌>>=◌,
}
use libmodbuspp.Base.Loops.{collect, store}
use libmodbuspp.Message.{Message, byte, word, set_byte, set_word}

-- `registerValue ()`, and `registerValue (index)` for a write of many registers.
unfoldable pub single_register_value : Message → Outcome ℕ
single_register_value m = word m (pos 3)

unfoldable pub register_value : Message → ℕ → Outcome ℕ
register_value m i = word m (pos (6 + i * 2))

unfoldable pub register_values : Message → ℕ → ℕ → Outcome (List ℕ)
register_values m i quantity = collect register_value m i 0 quantity

unfoldable pub single_coil_value : Message → Outcome Bool
single_coil_value m = do v ← word m (pos 3); ok (v == 0xFF00)

-- `(b & (1 << bit)) != 0`
abbrev pub test_bit : ℕ → ℕ → Bool
test_bit b bit = not (bit_and b (2 ^ bit) == 0)

-- `b &= ~ (1 << bit); b |= (value ? 1 : 0) << bit;` on a `uint8_t`
abbrev pub with_bit : ℕ → ℕ → Bool → ℕ
with_bit b bit value = bit_or (bit_and b (255 - 2 ^ bit)) ((if value then 1 else 0) * 2 ^ bit)

unfoldable pub coil_value : Message → ℕ → Outcome Bool
coil_value m i = do b ← byte m (pos (i / 8 + 6)); ok (test_bit b (i % 8))

unfoldable pub coil_values : Message → ℕ → ℕ → Outcome (List Bool)
coil_values m i quantity = collect coil_value m i 0 quantity

unfoldable pub byte_count : Message → Outcome ℕ
byte_count m = byte m (pos 5)

unfoldable pub set_byte_count : Message → ℕ → Outcome Message
set_byte_count m n = set_byte m (pos 5) n

unfoldable pub set_single_register_value : Message → ℕ → Outcome Message
set_single_register_value m value = set_word m (pos 3) value

unfoldable pub set_register_value : Message → ℕ → ℕ → Outcome Message
set_register_value m i value = set_word m (pos (6 + i * 2)) value

unfoldable pub set_register_values : Message → ℕ → ℕ → List ℕ → Outcome Message
set_register_values m i quantity values = store set_register_value m i 0 quantity values

unfoldable pub set_single_coil_value : Message → Bool → Outcome Message
set_single_coil_value m value = set_word m (pos 3) (if value then 0xFF00 else 0x0000)

unfoldable pub set_coil_value : Message → ℕ → Bool → Outcome Message
set_coil_value m i value = do
  b ← byte m (pos (i / 8 + 6))
  set_byte m (pos (i / 8 + 6)) (with_bit b (i % 8) value)

unfoldable pub set_coil_values : Message → ℕ → ℕ → List Bool → Outcome Message
set_coil_values m i quantity values = store set_coil_value m i 0 quantity values

-- ===== src/Tests/Messages.antt =====
-- Requests and responses.
use libmodbuspp.Base.{◌≡◌, refl, arith, true, false, [], ◌∷◌, pos, ok}
use libmodbuspp.Message.{Message, tcp, set_word, byte, function}
use libmodbuspp.Request.{register_values, set_register_values, coil_values, set_coil_values}
use libmodbuspp.Request.Registers.{request_registers_round_trip}
use libmodbuspp.Request.Coils.{request_coils_round_trip}
use libmodbuspp.Response.{set_bit_value}
use libmodbuspp.Response.Laws.{set_bit_value-changes_function}

-- A message with twelve bytes of PDU in its buffer, for function 2.
abbrev twelve : Message
twelve = record {
  net = tcp;
  pdu_begin = 7;
  adu_size = 7;
  max_adu_length = 19;
  is_response = false;
  transaction_id = 0;
  adu = 0 ∷ 0 ∷ 0 ∷ 0 ∷ 0 ∷ 0 ∷ 1 ∷ 2 ∷ 0 ∷ 0 ∷ 0 ∷ 0 ∷ 0 ∷ 0 ∷ 0 ∷ 0 ∷ 0 ∷ 0 ∷ 0 ∷ [];
}

-- After `setWord (3, 0x1234)`.
abbrev twelve_written : Message
twelve_written = record twelve {
  adu_size = 12;
  adu = 0 ∷ 0 ∷ 0 ∷ 0 ∷ 0 ∷ 0 ∷ 1 ∷ 2 ∷ 0 ∷ 0 ∷ 0x12 ∷ 0x34 ∷ 0 ∷ 0 ∷ 0 ∷ 0 ∷ 0 ∷ 0 ∷ 0 ∷ [];
}

set_word-twelve : set_word twelve (pos 3) 0x1234 ≡ ok twelve_written
unfolding set_word
set_word-twelve = refl

request_registers_round_trip_example :
    (t : Message) × (set_register_values twelve 1 2 (5 ∷ 6 ∷ 7 ∷ []) ≡ ok t)
    × (register_values t 1 2 ≡ ok (5 ∷ 6 ∷ []))
request_registers_round_trip_example =
    request_registers_round_trip twelve 1 2 (5 ∷ 6 ∷ 7 ∷ []) (omega arith) (omega arith)
      (omega arith) (omega arith)

request_coils_round_trip_example :
    (t : Message) × (set_coil_values twelve 7 2 (true ∷ true ∷ []) ≡ ok t)
    × (coil_values t 7 2 ≡ ok (true ∷ true ∷ []))
request_coils_round_trip_example =
    request_coils_round_trip twelve 7 2 (true ∷ true ∷ []) (omega arith) (omega arith) (omega arith)
      (omega arith)

function-twelve : function twelve ≡ ok 2
unfolding byte
function-twelve = refl

set_bit_value-changes_function_example :
    (t : Message) × (set_bit_value twelve 0 true ≡ ok t) × (function t ≡ ok 3)
set_bit_value-changes_function_example =
    set_bit_value-changes_function twelve 2 0 true (omega arith) (omega arith) function-twelve

-- ===== src/Message.antt =====
-- The `Message` class of src/message.cpp over the state of src/message_p.h: access to its bytes.
-- An access outside `adu` is `fault`. Offsets are `int`, and count from the first byte of the PDU.
pub mod Access
pub mod Create
pub mod Bytes
pub mod Objects
use libmodbuspp.Base.{
  ℕ, ◌+◌, ◌-◌, ◌*◌, ◌/◌, ◌%◌, ◌^◌, max, Bool, true, false, List, length, get_elem?, set, resize,
  splice, take, drop, ltb, leb, if◌then◌else◌, ℤ, pos, negsuc, sub_ℕ, Outcome, ok, thrown, fault,
  ◌>>=◌, deref, domain_error, invalid_argument,
}

-- `enum Net` of include/modbuspp/global.h
pub data Net : Type 0 where
  rtu tcp no_net : Net

-- `Message::Private`. The pointer to the backend is an argument of the operation that follows it.
pub record Message : Type 0 where
  pub net : Net
  pub pdu_begin : ℕ
  pub adu_size : ℕ
  pub max_adu_length : ℕ
  pub is_response : Bool
  pub transaction_id : ℕ
  pub adu : List ℕ

-- `d->pduBegin + i`, as an index: a negative one is out of range.
abbrev pub index : Message → ℤ → Outcome ℕ
index m (pos n) = ok (m.pdu_begin + n)
index m (negsuc n) = if ltb n m.pdu_begin then ok (m.pdu_begin - 1 - n) else fault

abbrev pub read_at : Message → ℕ → Outcome ℕ
read_at m i = deref (get_elem? m.adu i)

abbrev pub write_at : Message → ℕ → ℕ → Outcome Message
write_at m i x = if ltb i (length m.adu) then ok (record m { adu = set m.adu i x }) else fault

unfoldable pub byte : Message → ℤ → Outcome ℕ
byte m i = do k ← index m i; read_at m k

unfoldable pub word : Message → ℤ → Outcome ℕ
word m i = do k ← index m i; h ← read_at m k; l ← read_at m (k + 1); ok (h * 2 ^ 8 + l)

-- `value` is a `uint16_t`.
unfoldable pub set_word : Message → ℤ → ℕ → Outcome Message
set_word m offset value = do
  k ← index m offset
  m' ← write_at m k (value / 2 ^ 8 % 2 ^ 8)
  m'' ← write_at m' (k + 1) (value % 2 ^ 8)
  ok (record m'' { adu_size = max m''.adu_size (k + 2) })

-- `value` is a `uint8_t`.
unfoldable pub set_byte : Message → ℤ → ℕ → Outcome Message
set_byte m offset value = do
  k ← index m offset
  m' ← write_at m k value
  ok (record m' { adu_size = max m'.adu_size (k + 1) })

unfoldable pub size : Message → ℕ
size m = if ltb m.pdu_begin m.adu_size then m.adu_size - m.pdu_begin else 0

abbrev pub slave : Message → Outcome ℕ
slave m = byte m (negsuc 0)

abbrev pub function : Message → Outcome ℕ
function m = byte m (pos 0)

abbrev pub starting_address : Message → Outcome ℕ
starting_address m = word m (pos 1)

abbrev pub quantity : Message → Outcome ℕ
quantity m = word m (pos 3)

-- `id & 0xFF`: the low byte of the two's complement pattern of an `int`.
abbrev pub low_byte : ℤ → ℕ
low_byte (pos n) = n % 2 ^ 8
low_byte (negsuc n) = 255 - n % 2 ^ 8

unfoldable pub set_slave_id : Message → ℤ → Outcome Message
set_slave_id m id = set_byte m (negsuc 0) (low_byte id)

unfoldable pub set_function : Message → ℕ → Outcome Message
set_function m func = set_byte m (pos 0) (func % 2 ^ 8)

unfoldable pub set_starting_adress : Message → ℕ → Outcome Message
set_starting_adress m addr = set_word m (pos 1) addr

unfoldable pub set_quantity : Message → ℕ → Outcome Message
set_quantity m n = set_word m (pos 3) n

unfoldable pub set_size : Message → ℕ → Message
set_size m n = record m { adu_size = m.pdu_begin + n }

unfoldable pub set_adu_size : Message → ℕ → Message
set_adu_size m n = record m { adu_size = n }

unfoldable pub set_response_flag : Message → Bool → Message
set_response_flag m flag = record m { is_response = flag }

-- `MODBUS_TCP_SLAVE` comes from libmodbus.
unfoldable pub clear : ℕ → Message → Outcome Message
clear tcp_slave m =
    let m' = record m { adu = resize m.adu m.max_adu_length 0; adu_size = 0 } in
    elim m.net [ tcp ↦ set_slave_id m' (pos tcp_slave) | _ ↦ ok m' ]

-- Both overloads: the bytes given, or those of another message's PDU.
unfoldable pub set_pdu : Message → List ℕ → Outcome Message
set_pdu m bytes =
    if leb (m.pdu_begin + length bytes) (length m.adu)
    then ok (set_size (record m { adu = splice m.adu m.pdu_begin bytes }) (length bytes))
    else fault

unfoldable pub set_pdu_from : Message → Message → Outcome Message
set_pdu_from m src =
    if leb (src.pdu_begin + size src) (length src.adu)
    then set_pdu m (take (size src) (drop src.pdu_begin src.adu))
    else fault

unfoldable pub transaction_identifier : Message → Outcome ℕ
transaction_identifier m = elim m.net [ tcp ↦ word m (negsuc 6) | _ ↦ thrown domain_error ]

unfoldable pub set_transaction_identifier : Message → ℕ → Outcome Message
set_transaction_identifier m tid = elim m.net [
  | tcp ↦ set_word m (negsuc 6) tid
  | _ ↦ thrown domain_error
]

-- The test of the size is as the source has it.
unfoldable pub crc : Message → Outcome ℕ
crc m = elim m.net [
  | rtu ↦ if leb 4 m.adu_size then thrown invalid_argument else word m (sub_ℕ (size m) 2)
  | _ ↦ thrown domain_error
]

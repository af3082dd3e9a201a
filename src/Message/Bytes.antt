-- ===== src/Message/Bytes.antt =====
-- The messages that are reached by the constructors and setters of src/message.cpp.
pub mod Setters
use libmodbuspp.Base.{
  ℕ, ◌+◌, ◌-◌, ◌/◌, ◌%◌, ◌^◌, ◌≤◌, ◌<◌, ◌≡◌, refl, arith, Bool, true, false, ◌⊎◌, inl, inr, List,
  IsBytes, length, length-set, length-splice, All-set, All-take, All-drop, All-append,
  All-replicate, take, drop, splice, resize, replicate, ◌++◌, ltb, leb, ℤ, pos, negsuc, ok, Ensures,
  Ensures-ok, Ensures-fault, Ensures-thrown, Ensures-test, Ensures-bind, Ensures-then, Ensures-map,
}
use libmodbuspp.Message.{
  Net, rtu, tcp, no_net, Message, index, write_at, set_byte, set_word, low_byte, set_slave_id,
  set_starting_adress, set_quantity, set_transaction_identifier, set_function, set_size,
  set_adu_size, set_response_flag, clear, set_pdu, set_pdu_from, size,
}
use libmodbuspp.Message.Create.{Limits, fresh, create, create_on, create_from, create_function}
use libmodbuspp.Message.Bytes.Setters.{
  IsMessage, set_byte-IsMessage, set_word-IsMessage, set_pdu-IsMessage, set_pdu_from-IsMessage,
  clear-IsMessage, set_transaction_identifier-IsMessage, low_byte-small, create-IsMessage,
  create_on-IsMessage, create_from-IsMessage, create_function-IsMessage,
}

-- The messages that are reached from a constructor by setters that return, and whether the size of
-- a message was set by hand since its array or its PDU was set as a whole. Bytes are `uint8_t`.
pub data Built (lim : Limits) : Bool → Message → Type 0 where
  created : (n : Net) (m : Message) → create lim n ≡ ok m → Built lim false m
  created_on : (n : Net) (m : Message) → create_on lim n ≡ ok m → Built lim false m
  created_from :
      (n : Net) (bytes : List ℕ) (m : Message)
      → IsBytes bytes
      → create_from lim n bytes ≡ ok m
      → Built lim false m
  created_function :
      (n : Net) (func : ℕ) (m : Message)
      → func < 256
      → create_function lim n func ≡ ok m
      → Built lim false m
  byte_set :
      (h : Bool) (m t : Message) (i : ℤ) (x : ℕ)
      → Built lim h m
      → x < 256
      → set_byte m i x ≡ ok t
      → Built lim h t
  word_set :
      (h : Bool) (m t : Message) (i : ℤ) (x : ℕ)
      → Built lim h m
      → set_word m i x ≡ ok t
      → Built lim h t
  slave_set :
      (h : Bool) (m t : Message) (id : ℤ) → Built lim h m → set_slave_id m id ≡ ok t → Built lim h t
  function_set :
      (h : Bool) (m t : Message) (f : ℕ) → Built lim h m → set_function m f ≡ ok t → Built lim h t
  address_set :
      (h : Bool) (m t : Message) (x : ℕ)
      → Built lim h m
      → set_starting_adress m x ≡ ok t
      → Built lim h t
  quantity_set :
      (h : Bool) (m t : Message) (x : ℕ) → Built lim h m → set_quantity m x ≡ ok t → Built lim h t
  transaction_set :
      (h : Bool) (m t : Message) (id : ℕ)
      → Built lim h m
      → set_transaction_identifier m id ≡ ok t
      → Built lim h t
  pdu_set :
      (h : Bool) (m t : Message) (bytes : List ℕ)
      → Built lim h m
      → IsBytes bytes
      → set_pdu m bytes ≡ ok t
      → Built lim false t
  pdu_copied :
      (h k : Bool) (m src t : Message)
      → Built lim h m
      → Built lim k src
      → set_pdu_from m src ≡ ok t
      → Built lim false t
  cleared :
      (h : Bool) (m t : Message) → Built lim h m → clear lim.tcp_slave m ≡ ok t → Built lim false t
  adu_sized : (h : Bool) (m : Message) (n : ℕ) → Built lim h m → Built lim true (set_adu_size m n)
  sized : (h : Bool) (m : Message) (n : ℕ) → Built lim h m → Built lim true (set_size m n)
  flagged :
      (h : Bool) (m : Message) (flag : Bool)
      → Built lim h m
      → Built lim h (set_response_flag m flag)

-- Every message that is reached from a constructor by setters that return, whatever sizes they are
-- given, holds bytes only. Its `aduSize` does not pass the end of its array, if neither
-- `setAduSize` nor `setSize` was called since the last constructor, `setPdu` or `clear`. The number
-- of the TCP slave is a byte.
pub Built-IsMessage :
    (lim : Limits) (by_hand : Bool) (m : Message)
    → lim.tcp_slave < 256
    → Built lim by_hand m
    → IsMessage by_hand m
unfolding set_slave_id set_starting_adress set_quantity set_function set_adu_size set_size
    set_response_flag
Built-IsMessage lim _ m h (created n _ e) = (create-IsMessage lim h n).holds m e
Built-IsMessage lim _ m h (created_on n _ e) = (create_on-IsMessage lim h n).holds m e
Built-IsMessage lim _ m h (created_from n bytes _ b e) =
    (create_from-IsMessage lim h n bytes b).holds m e
Built-IsMessage lim _ m h (created_function n func _ b e) =
    (create_function-IsMessage lim h n func b).holds m e
Built-IsMessage lim _ t h (byte_set k m _ i x r b e) =
    (set_byte-IsMessage k m i x (Built-IsMessage lim k m h r) b).holds t e
Built-IsMessage lim _ t h (word_set k m _ i x r e) =
    (set_word-IsMessage k m i x (Built-IsMessage lim k m h r)).holds t e
Built-IsMessage lim _ t h (slave_set k m _ id r e) =
    (set_byte-IsMessage k m (negsuc 0) (low_byte id) (Built-IsMessage lim k m h r)
        (low_byte-small id)).holds
      t e
Built-IsMessage lim _ t h (function_set k m _ f r e) =
    (set_byte-IsMessage k m (pos 0) (f % 2 ^ 8) (Built-IsMessage lim k m h r) (omega arith)).holds t
      e
Built-IsMessage lim _ t h (address_set k m _ x r e) =
    (set_word-IsMessage k m (pos 1) x (Built-IsMessage lim k m h r)).holds t e
Built-IsMessage lim _ t h (quantity_set k m _ x r e) =
    (set_word-IsMessage k m (pos 3) x (Built-IsMessage lim k m h r)).holds t e
Built-IsMessage lim _ t h (transaction_set k m _ id r e) =
    (set_transaction_identifier-IsMessage k m id (Built-IsMessage lim k m h r)).holds t e
Built-IsMessage lim _ t h (pdu_set k m _ bytes r b e) =
    (set_pdu-IsMessage k m bytes (Built-IsMessage lim k m h r) b).holds t e
Built-IsMessage lim _ t h (pdu_copied k l m src _ r q e) =
    (set_pdu_from-IsMessage k l m src (Built-IsMessage lim k m h r)
        (Built-IsMessage lim l src h q)).holds
      t e
Built-IsMessage lim _ t h (cleared k m _ r e) =
    (clear-IsMessage k lim.tcp_slave m (Built-IsMessage lim k m h r)).holds t e
Built-IsMessage lim _ _ h (adu_sized k m n r) = record {
  bytes = (Built-IsMessage lim k m h r).bytes;
  fits = inl refl;
}
Built-IsMessage lim _ _ h (sized k m n r) = record {
  bytes = (Built-IsMessage lim k m h r).bytes;
  fits = inl refl;
}
Built-IsMessage lim _ _ h (flagged k m flag r) =
    let v = Built-IsMessage lim k m h r in record { bytes = v.bytes; fits = v.fits }

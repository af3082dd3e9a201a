-- ===== src/NetLayer/Frame.antt =====
-- The frames that `prepareToSend` makes of a message, with a layer and without.
use libmodbuspp.Base.{
  ℕ, ◌+◌, ◌/◌, ◌%◌, ◌≤◌, ◌<◌, ◌≡◌, arith, Bool, true, false, List, [], ◌∷◌, ◌++◌, if◌then◌else◌,
  ◌-ℤ◌, ◌+ℤ◌, ok,
}
use libmodbuspp.Message.{tcp, Message, size, set_word}
use libmodbuspp.NetLayer.{
  tcp_layer, tcp_prepare, layer_prepare, prepare_tcp, prepare_alone, write_length,
  write_transaction,
}

-- A TCP message of `n` bytes of PDU. The header is two bytes of transaction, two of protocol, two
-- of length, and the unit.
abbrev pub tcp_message : Bool → ℕ → ℕ → ℕ → List ℕ → Message
tcp_message response n longest tid adu = record {
  net = tcp;
  pdu_begin = 7;
  adu_size = 7 + n;
  max_adu_length = longest;
  is_response = response;
  transaction_id = tid;
  adu = adu;
}

module _ (n longest tid a0 a1 a2 a3 a4 a5 unit : ℕ) (pdu : List ℕ) (some_pdu : 1 ≤ n)
    (small : n < 65535) (word : tid < 65536) where
  abbrev before : List ℕ
  before = a0 ∷ a1 ∷ a2 ∷ a3 ∷ a4 ∷ a5 ∷ unit ∷ pdu

  -- The same bytes with the header of a request.
  abbrev pub request_frame : List ℕ
  request_frame = tid / 256 ∷ tid % 256 ∷ 0 ∷ 0 ∷ (n + 1) / 256 ∷ (n + 1) % 256 ∷ unit ∷ pdu

  -- The same bytes with the header of a response, which keeps the request's identifier.
  abbrev pub response_frame : List ℕ
  response_frame = a0 ∷ a1 ∷ a2 ∷ a3 ∷ (n + 1) / 256 ∷ (n + 1) % 256 ∷ unit ∷ pdu

  -- By a TCP layer.
  pub tcp_prepare-request :
      tcp_prepare tid (tcp_message false n longest tid before)
      ≡ ok (true, (tid + 1) % 65536, tcp_message false n longest tid request_frame)
  unfolding tcp_prepare size write_length write_transaction
  tcp_prepare-request = ground arith

  pub tcp_prepare-response :
      tcp_prepare tid (tcp_message true n longest tid before)
      ≡ ok (true, tid, tcp_message true n longest tid response_frame)
  unfolding tcp_prepare size write_length write_transaction
  tcp_prepare-response = ground arith

  -- Without a layer.
  pub prepare_alone-request :
      prepare_alone (tcp_message false n longest tid before)
      ≡ ok (true, tcp_message false n longest ((tid + 1) % 65536) request_frame)
  unfolding prepare_alone prepare_tcp size set_word ◌-ℤ◌ ◌+ℤ◌
  prepare_alone-request = ground arith

  pub prepare_alone-response :
      prepare_alone (tcp_message true n longest tid before)
      ≡ ok (true, tcp_message true n longest tid response_frame)
  unfolding prepare_alone prepare_tcp size set_word ◌-ℤ◌ ◌+ℤ◌
  prepare_alone-response = ground arith

-- Where the identifier of the next request is kept: the layer's, or the message's own.
abbrev next_identifier : Bool → ℕ → ℕ
next_identifier true tid = tid
next_identifier false tid = (tid + 1) % 65536

-- A TCP message whose PDU has 1 to 65534 bytes gets the same header from a TCP layer and from
-- itself: the length that follows is that of the unit and the PDU, a request carries the
-- identifier and protocol 0, a response keeps its first four bytes, and only a request advances
-- the identifier. The unit and the PDU stay.
pub tcp_frame :
    (response : Bool) (n longest tid a0 a1 a2 a3 a4 a5 unit : ℕ) (pdu : List ℕ)
    → 1 ≤ n
    → n < 65535
    → tid < 65536
    → (let header : List ℕ =
          if response then a0 ∷ a1 ∷ a2 ∷ a3 ∷ [] else tid / 256 ∷ tid % 256 ∷ 0 ∷ 0 ∷ [] in
        let frame : List ℕ = header ++ (n + 1) / 256 ∷ (n + 1) % 256 ∷ unit ∷ pdu in
        let given = tcp_message response n longest tid (a0 ∷ a1 ∷ a2 ∷ a3 ∷ a4 ∷ a5 ∷ unit ∷ pdu) in
        (layer_prepare (tcp_layer tid) given
          ≡ ok (
            true,
            tcp_layer (next_identifier response tid),
            tcp_message response n longest tid frame,
          ))
        × (prepare_alone given
            ≡ ok (true, tcp_message response n longest (next_identifier response tid) frame)))
unfolding layer_prepare
tcp_frame true n longest tid a0 a1 a2 a3 a4 a5 unit pdu l s w = (
  rw (tcp_prepare-response n longest tid a0 a1 a2 a3 a4 a5 unit pdu l s w),
  prepare_alone-response n longest tid a0 a1 a2 a3 a4 a5 unit pdu l s w,
)
tcp_frame false n longest tid a0 a1 a2 a3 a4 a5 unit pdu l s w = (
  rw (tcp_prepare-request n longest tid a0 a1 a2 a3 a4 a5 unit pdu l s w),
  prepare_alone-request n longest tid a0 a1 a2 a3 a4 a5 unit pdu l s w,
)

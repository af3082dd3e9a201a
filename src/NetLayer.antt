-- ===== src/NetLayer.antt =====
-- The network layers of src/netlayer.cpp, src/tcplayer.cpp and src/rtulayer.cpp, as far as they
-- touch a message, and `Message::prepareToSend` of src/message.cpp, which asks the layer or does
-- the same by itself.
pub mod Frame
pub mod Rtu
use libmodbuspp.Base.{
  ℕ, ◌+◌, ◌-◌, ◌/◌, ◌%◌, ◌^◌, Bool, true, false, not, Option, none, some, ltb, leb, if◌then◌else◌,
  ◌==◌, ℤ, pos, negsuc, ◌-ℤ◌, ◌+ℤ◌, Outcome, ok, thrown, fault, ◌>>=◌, invalid_argument,
}
use libmodbuspp.RtuLayer.Crc.{crc16}
use libmodbuspp.Message.{
  Net, rtu, tcp, no_net, Message, write_at, set_word, size, set_adu_size, crc,
}

-- A layer, with the state of `TcpLayer::Private` that outlives a message.
pub data Layer : Type 0 where
  tcp_layer : ℕ → Layer
  rtu_layer : Layer
  base_layer : Layer

-- `msg.net () == net && msg.size () >= 1`
abbrev pub ready : Net → Message → Bool
ready tcp m = elim m.net [ tcp ↦ leb 1 (size m) | _ ↦ false ]
ready rtu m = elim m.net [ rtu ↦ leb 1 (size m) | _ ↦ false ]
ready no_net m = false

-- The bytes 4 and 5 of the header: the size of what follows them.
unfoldable pub write_length : Message → Outcome Message
write_length m =
    let s = (size m + 1) % 2 ^ 16 in write_at m 4 (s / 2 ^ 8) >>= λ m. write_at m 5 (s % 2 ^ 8)

-- The bytes 0 to 3 of a request's header.
unfoldable pub write_transaction : ℕ → Message → Outcome Message
write_transaction tid m = do
  m ← write_at m 0 (tid / 2 ^ 8)
  m ← write_at m 1 (tid % 2 ^ 8)
  m ← write_at m 2 0
  write_at m 3 0

unfoldable pub tcp_prepare : ℕ → Message → Outcome (Bool × ℕ × Message)
tcp_prepare tid m =
    let request : Outcome (Bool × ℕ × Message) =
      (write_transaction tid m >>= λ m'.
      write_length m' >>= λ m''. ok (true, (tid + 1) % 2 ^ 16, m'')) in
    let response : Outcome (Bool × ℕ × Message) = (write_length m >>= λ m'. ok (true, tid, m')) in
    if ready tcp m then (if m.is_response then response else request) else ok (false, tid, m)

-- `crc16` takes its count as a `uint16_t`.
unfoldable pub rtu_prepare : Message → Outcome (Bool × Message)
rtu_prepare m =
    let framed : Outcome (Bool × Message) =
      (crc16 m.adu (m.adu_size % 2 ^ 16) >>= λ c. write_at m m.adu_size (c / 2 ^ 8) >>= λ m'.
      write_at m' (m.adu_size + 1) (c % 2 ^ 8) >>= λ m''.
      ok (true, set_adu_size m'' (m.adu_size + 2))) in
    if ready rtu m then framed else ok (false, m)

unfoldable pub tcp_check : Message → Bool
tcp_check m = ready tcp m

-- `msg.aduSize () - 2` wraps below zero, and is cut to a `uint16_t`.
unfoldable pub rtu_check : Message → Outcome Bool
rtu_check m = do
  computed ← crc16 m.adu ((m.adu_size + 2 ^ 16 - 2) % 2 ^ 16)
  received ← crc m
  ok (computed == received)

-- The virtual calls. The base class answers `false`.
unfoldable pub layer_prepare : Layer → Message → Outcome (Bool × Layer × Message)
layer_prepare (tcp_layer tid) m = tcp_prepare tid m >>= λ r. ok (r.0, tcp_layer r.1, r.2)
layer_prepare rtu_layer m = rtu_prepare m >>= λ r. ok (r.0, rtu_layer, r.1)
layer_prepare base_layer m = ok (false, base_layer, m)

unfoldable pub check_message : Layer → Message → Outcome Bool
check_message (tcp_layer tid) m = ok (tcp_check m)
check_message rtu_layer m = rtu_check m
check_message base_layer m = ok false

-- `Message::prepareToSend` without a layer, on TCP: the words of the header.
unfoldable pub prepare_tcp : Message → Outcome Message
prepare_tcp m =
    let i = pos 0 -ℤ pos m.pdu_begin in
    let identified : Outcome Message =
      (set_word m i m.transaction_id >>= λ m'.
      set_word (record m' { transaction_id = (m.transaction_id + 1) % 2 ^ 16 }) (i +ℤ pos 2) 0) in
    (if m.is_response then ok m else identified) >>= λ m'.
    set_word m' (i +ℤ pos 4) ((size m' + 1) % 2 ^ 16)

unfoldable pub prepare_rtu : Message → Outcome Message
prepare_rtu m = do c ← crc16 m.adu (m.adu_size % 2 ^ 16); set_word m (pos (size m)) c

unfoldable pub prepare_alone : Message → Outcome (Bool × Message)
prepare_alone m =
    let prepared : Outcome Message = elim m.net [
      | tcp ↦ prepare_tcp m
      | rtu ↦ prepare_rtu m
      | no_net ↦ thrown invalid_argument
    ] in
    if leb 1 (size m) then (prepared >>= λ m'. ok (true, m')) else ok (false, m)

unfoldable pub prepare_to_send : Option Layer → Message → Outcome (Bool × Option Layer × Message)
prepare_to_send none m = prepare_alone m >>= λ r. ok (r.0, none, r.1)
prepare_to_send (some l) m = layer_prepare l m >>= λ r. ok (r.0, some r.1, r.2)

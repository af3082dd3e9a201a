-- ===== src/Message/Create.antt =====
-- The constructors of `Message::Private` in src/message.cpp.
use libmodbuspp.Base.{
  ℕ, List, length, replicate, false, Outcome, ok, thrown, ◌>>=◌, invalid_argument,
}
use libmodbuspp.Message.{Net, rtu, tcp, no_net, Message, write_at}

-- What libmodbus and its headers fix: `modbus_get_header_length`, the `MODBUS_*_MAX_ADU_LENGTH`
-- that the layers pass to their messages, and `MODBUS_TCP_SLAVE`.
pub record Limits : Type 0 where
  pub header_length : Net → ℕ
  pub max_adu_length : Net → ℕ
  pub tcp_slave : ℕ

module _ (lim : Limits) where
  -- The state of a message that a layer of this net makes, or that is made for the net.
  abbrev pub fresh : Net → Message
  fresh n = record {
    net = n;
    pdu_begin = lim.header_length n;
    adu_size = 0;
    max_adu_length = lim.max_adu_length n;
    is_response = false;
    transaction_id = 1;
    adu = replicate (lim.max_adu_length n) 0;
  }

  -- `Private (q, b)`: over the net of a layer.
  unfoldable pub create_on : Net → Outcome Message
  create_on n = elim n [ tcp ↦ write_at (fresh tcp) 6 lim.tcp_slave | other ↦ ok (fresh other) ]

  -- `Private (q, n)`: a message with no layer.
  unfoldable pub create : Net → Outcome Message
  create n = elim n [
    | tcp ↦ write_at (fresh tcp) 6 lim.tcp_slave
    | rtu ↦ ok (fresh rtu)
    | no_net ↦ thrown invalid_argument
  ]

  unfoldable pub create_from : Net → List ℕ → Outcome Message
  create_from n bytes = do m ← create n; ok (record m { adu = bytes; adu_size = length bytes })

  unfoldable pub create_function : Net → ℕ → Outcome Message
  create_function n func = do m ← create n; write_at m m.pdu_begin func

-- ===== src/Tests/Lines.antt =====
-- Frames of a serial line and of TCP.
use libmodbuspp.Base.{
  ℕ, ◌*◌, ◌/◌, ◌%◌, ◌+◌, ◌≡◌, ◌≢◌, refl, arith, true, false, List, [], ◌∷◌, ◌++◌, length, IsBytes,
  ok, thrown, invalid_argument,
}
use libmodbuspp.RtuLayer.Crc.{crc_step, crc_loop, crc16}
use libmodbuspp.RtuLayer.Crc.Detect.{crc16_detects}
use libmodbuspp.RtuLayer.Crc.Bitwise.{serial_crc, crc16-eq-serial_crc}
use libmodbuspp.Message.{Message, rtu}
use libmodbuspp.NetLayer.{
  tcp_layer, rtu_layer, layer_prepare, rtu_prepare, prepare_alone, check_message,
}
use libmodbuspp.NetLayer.Frame.{tcp_message, tcp_frame}
use libmodbuspp.NetLayer.Rtu.{given, framed, rtu_frame, rtu_check-throws}

-- To read ten registers of slave 1.
abbrev read_ten : List ℕ
read_ten = 1 ∷ 3 ∷ 0 ∷ 0 ∷ 0 ∷ 10 ∷ []

read_ten-IsBytes : IsBytes read_ten
read_ten-IsBytes = omega arith

crc16-read_ten : crc16 read_ten (length read_ten) ≡ ok 0xC5CD
unfolding crc16 crc_loop crc_step
crc16-read_ten = refl

crc16_detects_example : crc16 (1 ∷ 3 ∷ 0 ∷ 4 ∷ 0 ∷ 10 ∷ []) 6 ≢ ok 0xC5CD
crc16_detects_example =
    crc16_detects (1 ∷ 3 ∷ 0 ∷ []) 0 4 (0 ∷ 10 ∷ []) {crc = 0xC5CD} (omega arith) (omega arith)
      (omega arith) (omega arith) (omega arith) crc16-read_ten

crc16-eq-serial_crc_example :
    crc16 read_ten (length read_ten)
    ≡ ok (serial_crc 0xFFFF read_ten % 256 * 256 + serial_crc 0xFFFF read_ten / 256)
crc16-eq-serial_crc_example = crc16-eq-serial_crc read_ten read_ten-IsBytes

abbrev pub line : Message
line = record {
  net = rtu;
  pdu_begin = 1;
  adu_size = 8;
  max_adu_length = 256;
  is_response = false;
  transaction_id = 0;
  adu = read_ten ++ 0xC5 ∷ 0xCD ∷ [];
}

rtu_frame_example :
    (crc : ℕ) × (rtu_prepare (given line read_ten 7 7 [])
      ≡ ok (true, framed line read_ten 7 7 [] crc))
    × (prepare_alone (given line read_ten 7 7 []) ≡ ok (true, framed line read_ten 7 7 [] crc))
    × (crc16 (framed line read_ten 7 7 [] crc).adu 8 ≡ ok 0)
rtu_frame_example = rtu_frame line read_ten 7 7 [] read_ten-IsBytes (omega arith) (omega arith)

rtu_check-throws_example : check_message rtu_layer line ≡ thrown invalid_argument
rtu_check-throws_example = rtu_check-throws line refl (omega arith) (omega arith) (omega arith)

tcp_frame_example :
    (layer_prepare
        (tcp_layer 0x102)
        (tcp_message false 5 260 0x102 (9 ∷ 9 ∷ 9 ∷ 9 ∷ 9 ∷ 9 ∷ read_ten))
      ≡ ok
          (true, tcp_layer 0x103, tcp_message false 5 260 0x102 (1 ∷ 2 ∷ 0 ∷ 0 ∷ 0 ∷ 6 ∷ read_ten)))
    × (prepare_alone (tcp_message false 5 260 0x102 (9 ∷ 9 ∷ 9 ∷ 9 ∷ 9 ∷ 9 ∷ read_ten))
        ≡ ok (true, tcp_message false 5 260 0x103 (1 ∷ 2 ∷ 0 ∷ 0 ∷ 0 ∷ 6 ∷ read_ten)))
tcp_frame_example =
    tcp_frame false 5 260 0x102 9 9 9 9 9 9 1 (3 ∷ 0 ∷ 0 ∷ 0 ∷ 10 ∷ []) (omega arith) (omega arith)
      (omega arith)

-- ===== src/Response/Laws.antt =====
-- The exception of a response, and where its bits go.
use libmodbuspp.Base.{
  ℕ, ◌+◌, ◌/◌, ◌%◌, ◌<◌, bit_or, ◌≡◌, refl, ◌∙◌, arith, Bool, length, pos, ok, length-set,
}
use libmodbuspp.Message.{Message, function, set_byte, set_function}
use libmodbuspp.Message.Access.{byte-set_byte, byte-set_byte_ne, set_byte-ok, with_byte}
use libmodbuspp.Request.{with_bit}
use libmodbuspp.Response.{set_exception_code, exception_code, set_bit_value}

module _ (m : Message) (f code : ℕ) where
  -- A response with room for two bytes whose function code is `f` takes an exception code: the
  -- function code gets its exception flag, and both are read back.
  pub exception_round_trip :
      m.pdu_begin + 1 < length m.adu
      → function m ≡ ok f
      → (t : Message) × (set_exception_code m code ≡ ok t)
        × (exception_code t ≡ ok code)
        × (function t ≡ ok (bit_or f 0x80 % 256))
  unfolding set_exception_code exception_code set_function
  exception_round_trip room read =
      let flagged = bit_or f 0x80 % 256 in
      let m1 = with_byte m (m.pdu_begin + 0) flagged in
      let t = with_byte m1 (m.pdu_begin + 1) code in
      let first : set_byte m (pos 0) flagged ≡ ok m1 =
        set_byte-ok m (pos 0) flagged (m.pdu_begin + 0) refl (omega arith) in
      let second : set_byte m1 (pos 1) code ≡ ok t =
        set_byte-ok m1 (pos 1) code (m.pdu_begin + 1) refl
          (omega (arith, length-set m.adu (m.pdu_begin + 0) flagged)) in
      (
        t,
        rw (read, first, second),
        byte-set_byte m1 (pos 1) code second,
        byte-set_byte_ne m1 (pos 1) (pos 0) code (m.pdu_begin + 1) (m.pdu_begin + 0) refl refl
              (omega arith) second
            ∙ byte-set_byte m (pos 0) flagged first,
      )

module _ (m : Message) (f i : ℕ) (value : Bool) where
  -- A response whose function code is `f` and lies in its buffer: to set one of the bits 0 to 7
  -- changes that bit of the function code, where the data of a response starts two bytes behind it.
  pub set_bit_value-changes_function :
      i < 8
      → m.pdu_begin < length m.adu
      → function m ≡ ok f
      → (t : Message) × (set_bit_value m i value ≡ ok t) × (function t ≡ ok (with_bit f i value))
  unfolding set_bit_value
  set_bit_value-changes_function small room read =
      let t = with_byte m (m.pdu_begin + 0) (with_bit f i value) in
      let stored : set_byte m (pos 0) (with_bit f i value) ≡ ok t =
        set_byte-ok m (pos 0) (with_bit f i value) (m.pdu_begin + 0) refl (omega arith) in
      let q : i / 8 ≡ 0 = omega arith in
      let r : i % 8 ≡ i = omega arith in
      (t, rw (q, r, read, stored), byte-set_byte m (pos 0) (with_bit f i value) stored)

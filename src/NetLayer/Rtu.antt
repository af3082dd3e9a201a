-- ===== src/NetLayer/Rtu.antt =====
-- The frame of a serial line: the message and its CRC.
use libmodbuspp.Base.{
  ℕ, ◌+◌, ◌-◌, ◌/◌, ◌%◌, ◌^◌, ◌≤◌, ◌<◌, ◌≡◌, sym, ap, ◌∙◌, arith, true, List, [], ◌∷◌, ◌++◌, length,
  length-append, set, set-append, set-append_second, append_assoc, leb, ap₂, max, pos, IsBytes, ok,
  thrown, invalid_argument, ltb, lt→ltb, le→leb,
}
use libmodbuspp.RtuLayer.Crc.{crc16}
use libmodbuspp.RtuLayer.Crc.Loop.{crc16-append, crc16-total, crc16-returns}
use libmodbuspp.RtuLayer.Crc.Residue.{crc16-residue}
use libmodbuspp.Message.{rtu, Message, size, set_word, crc, set_adu_size}
use libmodbuspp.Message.Access.{with_word, set_word-ok}
use libmodbuspp.NetLayer.{
  rtu_layer, rtu_prepare, rtu_check, prepare_rtu, prepare_alone, check_message,
}

-- A message for a serial line, with these bytes in its buffer.
abbrev pub rtu_message : Message → ℕ → List ℕ → Message
rtu_message m n adu = record m { net = rtu; pdu_begin = 1; adu_size = n; adu = adu }

module _ (m : Message) (msg : List ℕ) (r0 r1 : ℕ) (rest : List ℕ) where
  abbrev pub given : Message
  given = rtu_message m (length msg) (msg ++ r0 ∷ r1 ∷ rest)

  abbrev pub framed : ℕ → Message
  framed crc = rtu_message m (length msg + 2) (msg ++ crc / 256 ∷ crc % 256 ∷ rest)

  module _ (crc : ℕ) (value : crc16 msg (length msg) ≡ ok crc) (word : crc < 65536)
      (some_pdu : 2 ≤ length msg) (small : length msg < 65534) where
    counted : crc16 given.adu (length msg % 65536) ≡ ok crc
    counted =
        let e : length msg % 65536 ≡ length msg = omega arith in
        ap (crc16 given.adu) e ∙ crc16-append msg (r0 ∷ r1 ∷ rest) ∙ value

    ready_size : (ltb 1 (length msg) ≡ true) × (leb 1 (length msg - 1) ≡ true)
    ready_size = (lt→ltb 1 (length msg) some_pdu, le→leb 1 (length msg - 1) (omega arith))

    rtu_prepare-framed : rtu_prepare given ≡ ok (true, framed crc)
    unfolding rtu_prepare size set_adu_size
    rtu_prepare-framed = rw (
      ready_size.0,
      ready_size.1,
      counted,
      lt→ltb (length msg) (length given.adu) (omega (arith, length-append msg (r0 ∷ r1 ∷ rest))),
      set-append msg r0 (crc / 256) (r1 ∷ rest),
      lt→ltb (length msg + 1) (length (msg ++ crc / 256 ∷ r1 ∷ rest))
          (omega (arith, length-append msg (crc / 256 ∷ r1 ∷ rest))),
      set-append_second msg (crc / 256) r1 (crc % 256) rest,
    )

    with_crc : with_word given (length msg) crc ≡ framed crc
    with_crc =
        let high : crc / 256 % 256 ≡ crc / 256 = omega arith in
        let grown : max (length msg) (length msg + 2) ≡ length msg + 2 = omega arith in
        ap₂ (λ n adu. rtu_message m n adu) grown
          (ap (λ h. set (set given.adu (length msg) h) (length msg + 1) (crc % 256)) high
            ∙ ap (λ adu. set adu (length msg + 1) (crc % 256))
                (set-append msg r0 (crc / 256) (r1 ∷ rest))
            ∙ set-append_second msg (crc / 256) r1 (crc % 256) rest)

    prepare_alone-framed : prepare_alone given ≡ ok (true, framed crc)
    unfolding prepare_alone prepare_rtu size
    prepare_alone-framed =
        let at : 1 + (length msg - 1) ≡ length msg = omega arith in
        let stored : set_word given (pos (length msg - 1)) crc ≡ ok (framed crc) =
          set_word-ok given (pos (length msg - 1)) crc (length msg) (ap ok at)
            (omega (arith, length-append msg (r0 ∷ r1 ∷ rest)))
          ∙ ap ok with_crc in
        rw (ready_size.0, ready_size.1, counted, stored)

-- A message of 2 to 65533 bytes for a serial line, with two elements of its buffer behind it, is framed
-- alike by the RTU layer and by the message itself: the bytes of its CRC follow, the high one first, the
-- rest of the buffer stays, the size grows by two, and the CRC of the whole frame is zero.
pub rtu_frame :
    (m : Message) (msg : List ℕ) (r0 r1 : ℕ) (rest : List ℕ)
    → IsBytes msg
    → 2 ≤ length msg
    → length msg < 65534
    → (crc : ℕ) × (rtu_prepare (given m msg r0 r1 rest) ≡ ok (true, framed m msg r0 r1 rest crc))
      × (prepare_alone (given m msg r0 r1 rest) ≡ ok (true, framed m msg r0 r1 rest crc))
      × (crc16 (framed m msg r0 r1 rest crc).adu (length msg + 2) ≡ ok 0)
rtu_frame m msg r0 r1 rest b l small =
    let (crc, value, word) = crc16-total msg b in
    let tail : List ℕ = crc / 256 ∷ crc % 256 ∷ [] in
    let e : length (msg ++ tail) ≡ length msg + 2 = length-append msg tail in
    (
      crc,
      rtu_prepare-framed m msg r0 r1 rest crc value word l small,
      prepare_alone-framed m msg r0 r1 rest crc value word l small,
      ap (λ adu. crc16 adu (length msg + 2)) (sym (append_assoc msg tail rest))
          ∙ ap (crc16 ((msg ++ tail) ++ rest)) (sym e)
          ∙ crc16-append (msg ++ tail) rest
          ∙ ap (crc16 (msg ++ tail)) e
          ∙ crc16-residue msg b value,
    )

-- `crc ()` throws on every message for a serial line that is long enough to hold a CRC.
pub crc-throws : (m : Message) → m.net ≡ rtu → 4 ≤ m.adu_size → crc m ≡ thrown invalid_argument
unfolding crc
crc-throws m e h = ground arith

-- The check of a received frame by the RTU layer throws whenever the frame has four to 65535
-- bytes and lies in its buffer, whatever its CRC.
pub rtu_check-throws :
    (m : Message)
    → m.net ≡ rtu
    → 4 ≤ m.adu_size
    → m.adu_size ≤ length m.adu
    → m.adu_size < 65536
    → check_message rtu_layer m ≡ thrown invalid_argument
unfolding check_message rtu_check
rtu_check-throws m e h fits small =
    let n : ℕ = (m.adu_size + 2 ^ 16 - 2) % 2 ^ 16 in
    let (r, returned) = crc16-returns m.adu n (omega arith) in rw (returned, crc-throws m e h)

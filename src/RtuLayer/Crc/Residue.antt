-- ===== src/RtuLayer/Crc/Residue.antt =====
-- The receiver's test of a frame: over the message and its two CRC bytes, the CRC is zero.
use libmodbuspp.Base.{
  IsBytes, All-append, ℕ, ◌+◌, ◌*◌, ◌<◌, ◌/◌, ◌%◌, ◌≡◌, ap, ap₂, subst, sym, ◌∙◌, arith, List, [],
  ◌∷◌, ◌++◌, length, length-append, take-length, take, ok, ok-injective, Outcome,
}
use libmodbuspp.Base.Bits.{bit_xor_self, bit_xor-zero}
use libmodbuspp.RtuLayer.Crc.{Crc, crc_step, crc16}
use libmodbuspp.RtuLayer.Crc.Loop.{IsCrc, start, fold, fold-append, fold-IsCrc, crc16-eq-fold}

-- Feeding the fold its own high byte and then its own low byte clears it.
fold_self : (c : Crc) → fold c (c.hi ∷ c.lo ∷ []) ≡ record { hi = 0; lo = 0 }
unfolding fold crc_step
fold_self c = rw (bit_xor_self c.hi, bit_xor-zero, bit_xor_self c.lo)

-- The CRC of a message that is followed by the two bytes of its own CRC, high byte first, is zero.
pub crc16-residue :
    (msg : List ℕ) {crc : ℕ}
    → IsBytes msg
    → crc16 msg (length msg) ≡ ok crc
    → crc16 (msg ++ (crc / 256 ∷ crc % 256 ∷ [])) (length msg + 2) ≡ ok 0
crc16-residue msg {crc} b h =
    let whole : take (length msg + 2) (msg ++ tail) ≡ msg ++ tail =
      ap (λ n. take n (msg ++ tail)) (sym (length-append msg tail)) ∙ take-length (msg ++ tail) in
    let cleared : fold start (msg ++ tail) ≡ record { hi = 0; lo = 0 } =
      fold-append start msg tail ∙ ap (fold d) own ∙ fold_self d in
    crc16-eq-fold (msg ++ tail) (length msg + 2)
      (All-append (λ x. x < 256) msg tail b (subst IsBytes (sym own) (valid.0, (valid.1, tt))))
      (omega (arith, length-append msg tail))
    ∙ ap (λ l. value (fold start l)) whole
    ∙ ap value cleared
  where
    d : Crc
    d = fold start msg

    value : Crc → Outcome ℕ
    value c = ok (c.hi * 256 + c.lo)

    tail : List ℕ
    tail = crc / 256 ∷ crc % 256 ∷ []

    valid : IsCrc d
    valid = fold-IsCrc start msg (omega arith) b

    computed : crc ≡ d.hi * 256 + d.lo
    computed = ok-injective (
        sym h
        ∙ crc16-eq-fold msg (length msg) b (omega arith)
        ∙ ap (λ l. value (fold start l)) (take-length msg))

    own : tail ≡ d.hi ∷ d.lo ∷ []
    own =
        ap₂ (λ (a b : ℕ). a ∷ b ∷ []) (omega (arith, computed, valid))
          (omega (arith, computed, valid))

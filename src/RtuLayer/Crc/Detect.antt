-- ===== src/RtuLayer/Crc/Detect.antt =====
-- What the CRC of `RtuLayer::crc16` tells apart.
use libmodbuspp.Base.{
  IsBytes, All-append, ℕ, ◌+◌, ◌*◌, ◌<◌, ◌≡◌, ◌≢◌, refl, ap, sym, ◌∙◌, arith, List, [], ◌∷◌, ◌++◌,
  length, take-length, ok, ok-injective, bit_xor, get_or, true, ◌==◌, ==_iff,
}
use libmodbuspp.Base.Bits.{bit_xor_cancel, bit_xor_comm, bit_xor-byte, tried_below, tried_at}
use libmodbuspp.RtuLayer.Tables.{crc_hi_table, crc_lo_table}
use libmodbuspp.RtuLayer.Crc.{Crc, crc_step, crc16}
use libmodbuspp.RtuLayer.Crc.Loop.{
  IsCrc, start, fold, fold-append, fold-IsCrc, crc_step-IsCrc, crc16-eq-fold,
}

-- Where each byte stands in the table of low bytes.
abbrev crc_lo_index : List ℕ
crc_lo_index =
    0x00 ∷ 0x03 ∷ 0x06 ∷ 0x05 ∷ 0x0f ∷ 0x0c ∷ 0x09 ∷ 0x0a ∷ 0x1e ∷ 0x1d ∷ 0x18 ∷ 0x1b ∷ 0x11 ∷ 0x12
    ∷ 0x17 ∷ 0x14 ∷ 0x3f ∷ 0x3c ∷ 0x39 ∷ 0x3a ∷ 0x30 ∷ 0x33 ∷ 0x36 ∷ 0x35 ∷ 0x21 ∷ 0x22 ∷ 0x27
    ∷ 0x24 ∷ 0x2e ∷ 0x2d ∷ 0x28 ∷ 0x2b ∷ 0x7e ∷ 0x7d ∷ 0x78 ∷ 0x7b ∷ 0x71 ∷ 0x72 ∷ 0x77 ∷ 0x74
    ∷ 0x60 ∷ 0x63 ∷ 0x66 ∷ 0x65 ∷ 0x6f ∷ 0x6c ∷ 0x69 ∷ 0x6a ∷ 0x41 ∷ 0x42 ∷ 0x47 ∷ 0x44 ∷ 0x4e
    ∷ 0x4d ∷ 0x48 ∷ 0x4b ∷ 0x5f ∷ 0x5c ∷ 0x59 ∷ 0x5a ∷ 0x50 ∷ 0x53 ∷ 0x56 ∷ 0x55 ∷ 0xff ∷ 0xfc
    ∷ 0xf9 ∷ 0xfa ∷ 0xf0 ∷ 0xf3 ∷ 0xf6 ∷ 0xf5 ∷ 0xe1 ∷ 0xe2 ∷ 0xe7 ∷ 0xe4 ∷ 0xee ∷ 0xed ∷ 0xe8
    ∷ 0xeb ∷ 0xc0 ∷ 0xc3 ∷ 0xc6 ∷ 0xc5 ∷ 0xcf ∷ 0xcc ∷ 0xc9 ∷ 0xca ∷ 0xde ∷ 0xdd ∷ 0xd8 ∷ 0xdb
    ∷ 0xd1 ∷ 0xd2 ∷ 0xd7 ∷ 0xd4 ∷ 0x81 ∷ 0x82 ∷ 0x87 ∷ 0x84 ∷ 0x8e ∷ 0x8d ∷ 0x88 ∷ 0x8b ∷ 0x9f
    ∷ 0x9c ∷ 0x99 ∷ 0x9a ∷ 0x90 ∷ 0x93 ∷ 0x96 ∷ 0x95 ∷ 0xbe ∷ 0xbd ∷ 0xb8 ∷ 0xbb ∷ 0xb1 ∷ 0xb2
    ∷ 0xb7 ∷ 0xb4 ∷ 0xa0 ∷ 0xa3 ∷ 0xa6 ∷ 0xa5 ∷ 0xaf ∷ 0xac ∷ 0xa9 ∷ 0xaa ∷ 0xfe ∷ 0xfd ∷ 0xf8
    ∷ 0xfb ∷ 0xf1 ∷ 0xf2 ∷ 0xf7 ∷ 0xf4 ∷ 0xe0 ∷ 0xe3 ∷ 0xe6 ∷ 0xe5 ∷ 0xef ∷ 0xec ∷ 0xe9 ∷ 0xea
    ∷ 0xc1 ∷ 0xc2 ∷ 0xc7 ∷ 0xc4 ∷ 0xce ∷ 0xcd ∷ 0xc8 ∷ 0xcb ∷ 0xdf ∷ 0xdc ∷ 0xd9 ∷ 0xda ∷ 0xd0
    ∷ 0xd3 ∷ 0xd6 ∷ 0xd5 ∷ 0x80 ∷ 0x83 ∷ 0x86 ∷ 0x85 ∷ 0x8f ∷ 0x8c ∷ 0x89 ∷ 0x8a ∷ 0x9e ∷ 0x9d
    ∷ 0x98 ∷ 0x9b ∷ 0x91 ∷ 0x92 ∷ 0x97 ∷ 0x94 ∷ 0xbf ∷ 0xbc ∷ 0xb9 ∷ 0xba ∷ 0xb0 ∷ 0xb3 ∷ 0xb6
    ∷ 0xb5 ∷ 0xa1 ∷ 0xa2 ∷ 0xa7 ∷ 0xa4 ∷ 0xae ∷ 0xad ∷ 0xa8 ∷ 0xab ∷ 0x01 ∷ 0x02 ∷ 0x07 ∷ 0x04
    ∷ 0x0e ∷ 0x0d ∷ 0x08 ∷ 0x0b ∷ 0x1f ∷ 0x1c ∷ 0x19 ∷ 0x1a ∷ 0x10 ∷ 0x13 ∷ 0x16 ∷ 0x15 ∷ 0x3e
    ∷ 0x3d ∷ 0x38 ∷ 0x3b ∷ 0x31 ∷ 0x32 ∷ 0x37 ∷ 0x34 ∷ 0x20 ∷ 0x23 ∷ 0x26 ∷ 0x25 ∷ 0x2f ∷ 0x2c
    ∷ 0x29 ∷ 0x2a ∷ 0x7f ∷ 0x7c ∷ 0x79 ∷ 0x7a ∷ 0x70 ∷ 0x73 ∷ 0x76 ∷ 0x75 ∷ 0x61 ∷ 0x62 ∷ 0x67
    ∷ 0x64 ∷ 0x6e ∷ 0x6d ∷ 0x68 ∷ 0x6b ∷ 0x40 ∷ 0x43 ∷ 0x46 ∷ 0x45 ∷ 0x4f ∷ 0x4c ∷ 0x49 ∷ 0x4a
    ∷ 0x5e ∷ 0x5d ∷ 0x58 ∷ 0x5b ∷ 0x51 ∷ 0x52 ∷ 0x57 ∷ 0x54 ∷ []

index_of_lo : tried_below 256 (λ i. get_or crc_lo_index (get_or crc_lo_table i 0) 0 == i) ≡ true
unfolding tried_below
index_of_lo = refl

-- The table of low bytes has no byte twice.
crc_lo_table-injective :
    (i j : ℕ) → i < 256 → j < 256 → get_or crc_lo_table i 0 ≡ get_or crc_lo_table j 0 → i ≡ j
crc_lo_table-injective i j p q h = sym (back i p) ∙ ap (λ b. get_or crc_lo_index b 0) h ∙ back j q
  where
    back : (i : ℕ) → i < 256 → get_or crc_lo_index (get_or crc_lo_table i 0) 0 ≡ i
    back i p = (==_iff _ i).0 (tried_at 256 _ i index_of_lo p)

-- A round of the loop that ends alike read the same table entry.
same_index :
    (c d : Crc) (x y : ℕ)
    → IsCrc c
    → IsCrc d
    → x < 256
    → y < 256
    → crc_step c x ≡ crc_step d y
    → bit_xor c.hi x ≡ bit_xor d.hi y
unfolding crc_step
same_index c d x y v w p q h =
    crc_lo_table-injective (bit_xor c.hi x) (bit_xor d.hi y) (bit_xor-byte c.hi x v.0 p)
      (bit_xor-byte d.hi y w.0 q) (ap (λ (c : Crc). c.lo) h)

crc_step-injective_byte :
    (c : Crc) (x y : ℕ) → IsCrc c → x < 256 → y < 256 → crc_step c x ≡ crc_step c y → x ≡ y
crc_step-injective_byte c x y v p q h = bit_xor_cancel c.hi x y (same_index c c x y v v p q h)

xor_cancel_right : (a b c : ℕ) → bit_xor b a ≡ bit_xor c a → b ≡ c
xor_cancel_right a b c h = bit_xor_cancel a b c (bit_xor_comm a b ∙ h ∙ bit_xor_comm c a)

crc_step-injective :
    (c d : Crc) (x : ℕ) → IsCrc c → IsCrc d → x < 256 → crc_step c x ≡ crc_step d x → c ≡ d
unfolding crc_step
crc_step-injective c d x v w p h = λ k. record { hi = hi_eq k; lo = lo_eq k }
  where
    index_eq : bit_xor c.hi x ≡ bit_xor d.hi x
    index_eq = same_index c d x x v w p p h

    hi_eq : c.hi ≡ d.hi
    hi_eq = xor_cancel_right x c.hi d.hi index_eq

    lo_eq : c.lo ≡ d.lo
    lo_eq =
        xor_cancel_right (get_or crc_hi_table (bit_xor d.hi x) 0) c.lo d.lo (
          ap (λ i. bit_xor c.lo (get_or crc_hi_table i 0)) (sym index_eq)
          ∙ ap (λ (c : Crc). c.hi) h)

fold-injective :
    (xs : List ℕ) (c d : Crc) → IsCrc c → IsCrc d → IsBytes xs → fold c xs ≡ fold d xs → c ≡ d
unfolding fold
fold-injective [] c d v w b h = h
fold-injective (x ∷ xs) c d v w b h = crc_step-injective c d x v w b.0 (
    fold-injective xs (crc_step c x) (crc_step d x) (crc_step-IsCrc c x v b.0)
      (crc_step-IsCrc d x w b.0) b.1 h)

-- Two states of the loop with the same value are the same.
value-injective : (c d : Crc) → IsCrc c → IsCrc d → c.hi * 256 + c.lo ≡ d.hi * 256 + d.lo → c ≡ d
value-injective c d v w h = λ k. record { hi = hi_eq k; lo = lo_eq k }
  where
    hi_eq : c.hi ≡ d.hi
    hi_eq = omega (arith, h, v, w)

    lo_eq : c.lo ≡ d.lo
    lo_eq = omega (arith, h, v, w)

crc16-fold :
    (xs : List ℕ) {crc : ℕ}
    → IsBytes xs
    → crc16 xs (length xs) ≡ ok crc
    → (fold start xs).hi * 256 + (fold start xs).lo ≡ crc
crc16-fold xs {crc} b h = ok-injective (
    ap (λ l. ok ((fold start l).hi * 256 + (fold start l).lo)) (sym (take-length xs))
    ∙ sym (crc16-eq-fold xs (length xs) b (omega arith))
    ∙ h)

-- Two messages of bytes that differ in exactly one byte, wherever it stands, have different CRCs.
pub crc16_detects :
    (before : List ℕ) (x y : ℕ) (after : List ℕ) {crc : ℕ}
    → IsBytes before
    → IsBytes after
    → x < 256
    → y < 256
    → x ≢ y
    → crc16 (before ++ x ∷ after) (length (before ++ x ∷ after)) ≡ ok crc
    → crc16 (before ++ y ∷ after) (length (before ++ y ∷ after)) ≢ ok crc
crc16_detects before x y after {crc} b c p q ne h k = ne (
    crc_step-injective_byte d x y valid p q (
      fold-injective after (crc_step d x) (crc_step d y) (crc_step-IsCrc d x valid p)
        (crc_step-IsCrc d y valid q) c same))
  where
    d : Crc
    d = fold start before

    valid : IsCrc d
    valid = fold-IsCrc start before (omega arith) b

    whole : (z : ℕ) → z < 256 → IsBytes (before ++ z ∷ after)
    whole z r = All-append (λ x. x < 256) before (z ∷ after) b (r, c)

    final : (z : ℕ) → fold start (before ++ z ∷ after) ≡ fold (crc_step d z) after
    final z = unfold fold in fold-append start before (z ∷ after)

    same : fold (crc_step d x) after ≡ fold (crc_step d y) after
    same =
        sym (final x)
        ∙ value-injective (fold start (before ++ x ∷ after)) (fold start (before ++ y ∷ after))
            (fold-IsCrc start _ (omega arith) (whole x p))
            (fold-IsCrc start _ (omega arith) (whole y q))
            (crc16-fold _ (whole x p) h ∙ sym (crc16-fold _ (whole y q) k))
        ∙ final y

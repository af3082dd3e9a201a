-- ===== src/RtuLayer/Crc/Bitwise.antt =====
-- The look-up tables compute the CRC of the MODBUS serial line: polynomial 0xA001, one bit at a time.
use libmodbuspp.Base.{
  IsBytes, ℕ, zero, suc, ◌+◌, ◌*◌, ◌/◌, ◌%◌, ◌^◌, ◌<◌, ◌≡◌, refl, ap, sym, ◌∙◌, arith, List, [],
  ◌∷◌, length, take-length, ok, bit_xor, get_or, true, ◌==◌, ==_iff, if◌then◌else◌,
}
use native.Mathlib.Nat.{pow-suc}
use libmodbuspp.Base.Bits.{
  bit_xor_step, bit_xor_assoc, bit_xor_comm, bit_xor_fields, bit_xor-byte, tried_below, tried_at,
}
use libmodbuspp.RtuLayer.Tables.{crc_hi_table, crc_lo_table}
use libmodbuspp.RtuLayer.Crc.{Crc, crc_step, crc16}
use libmodbuspp.RtuLayer.Crc.Loop.{
  IsCrc, start, fold, fold-IsCrc, crc_step-IsCrc, crc16-eq-fold, hi_byte,
}

-- One bit of the serial line's CRC register.
abbrev pub shift_bit : ℕ → ℕ
shift_bit r = if r % 2 == 1 then bit_xor (r / 2) 0xA001 else r / 2

pub shift_bits : ℕ → ℕ → ℕ
shift_bits zero r = r
shift_bits (suc k) r = shift_bits k (shift_bit r)

-- The register after a message: each byte is brought in, and eight bits are shifted out.
pub serial_crc : ℕ → List ℕ → ℕ
serial_crc r [] = r
serial_crc r (x ∷ xs) = serial_crc (shift_bits 8 (bit_xor r x)) xs

table :
    tried_below 256 (λ i. shift_bits 8 i == get_or crc_lo_table i 0 * 256 + get_or crc_hi_table i 0)
    ≡ true
unfolding tried_below shift_bits
table = refl

-- What stands above the bits that are shifted out comes through unchanged.
shift_bits-high : (k h y : ℕ) → shift_bits k (bit_xor (h * 2 ^ k) y) ≡ bit_xor h (shift_bits k y)
unfolding shift_bits
shift_bits-high zero h y = ap (λ t. bit_xor t y) (omega arith)
shift_bits-high (suc k) h y = ap (shift_bits k) one ∙ shift_bits-high k h (shift_bit y)
  where
    shifted : h * 2 ^ suc k ≡ 2 * (h * 2 ^ k)
    shifted = omega (arith, ap (λ (t : ℕ). h * t) (pow-suc 2 k))

    half : bit_xor (h * 2 ^ suc k) y / 2 ≡ bit_xor (h * 2 ^ k) (y / 2)
    half =
        let e : h * 2 ^ suc k / 2 ≡ h * 2 ^ k = omega (arith, shifted) in
        rw (bit_xor_step (h * 2 ^ suc k) y, e) (omega arith)

    parity : bit_xor (h * 2 ^ suc k) y % 2 ≡ y % 2
    parity = omega (arith, shifted, bit_xor_step (h * 2 ^ suc k) y)

    one : shift_bit (bit_xor (h * 2 ^ suc k) y) ≡ bit_xor (h * 2 ^ k) (shift_bit y)
    one = rw (parity, half) (ground (arith, bit_xor_assoc (h * 2 ^ k) (y / 2) 0xA001))

-- The two bytes of the code are the register's, the low one first.
abbrev register : Crc → ℕ
register c = c.lo * 256 + c.hi

table_at :
    (i : ℕ) → i < 256 → shift_bits 8 i ≡ get_or crc_lo_table i 0 * 256 + get_or crc_hi_table i 0
table_at i h = (==_iff _ _).0 (tried_at 256 _ i table h)

-- A byte brought into the low half of a register.
exchange :
    (a l h : ℕ) → h < 256 → bit_xor a h < 256 → bit_xor a (l * 256 + h) ≡ l * 256 + bit_xor a h
exchange a l h p q =
    ap (bit_xor a) (sym (bit_xor_fields 8 l h p))
    ∙ sym (bit_xor_assoc a (l * 256) h)
    ∙ ap (λ t. bit_xor t h) (bit_xor_comm a (l * 256))
    ∙ bit_xor_assoc (l * 256) a h
    ∙ bit_xor_fields 8 l (bit_xor a h) q

step-register :
    (c : Crc) (x : ℕ)
    → IsCrc c
    → x < 256
    → shift_bits 8 (bit_xor (register c) x) ≡ register (crc_step c x)
unfolding crc_step
step-register c x v h =
    ap (λ r. shift_bits 8 (bit_xor r x)) (sym (bit_xor_fields 8 c.lo c.hi v.0))
    ∙ ap (shift_bits 8) (bit_xor_assoc (c.lo * 256) c.hi x)
    ∙ shift_bits-high 8 c.lo i
    ∙ ap (bit_xor c.lo) (table_at i (bit_xor-byte c.hi x v.0 h))
    ∙ exchange c.lo (get_or crc_lo_table i 0) (get_or crc_hi_table i 0)
        (hi_byte i (bit_xor-byte c.hi x v.0 h)) (crc_step-IsCrc c x v h).0
  where
    i : ℕ
    i = bit_xor c.hi x

fold-register :
    (xs : List ℕ) (c : Crc)
    → IsCrc c
    → IsBytes xs
    → serial_crc (register c) xs ≡ register (fold c xs)
unfolding serial_crc fold
fold-register [] c v b = refl
fold-register (x ∷ xs) c v b =
    ap (λ r. serial_crc r xs) (step-register c x v b.0)
    ∙ fold-register xs (crc_step c x) (crc_step-IsCrc c x v b.0) b.1

-- For a message of bytes `crc16` returns the CRC that the serial line computes bit by bit from
-- 0xFFFF, with its two bytes exchanged.
pub crc16-eq-serial_crc :
    (msg : List ℕ)
    → IsBytes msg
    → crc16 msg (length msg) ≡ (let r = serial_crc 0xFFFF msg in ok (r % 256 * 256 + r / 256))
crc16-eq-serial_crc msg b =
    crc16-eq-fold msg (length msg) b (omega arith)
    ∙ ap (λ l. ok ((fold start l).hi * 256 + (fold start l).lo)) (take-length msg)
    ∙ ap ok value
  where
    valid : IsCrc (fold start msg)
    valid = fold-IsCrc start msg (omega arith) b

    value :
        (fold start msg).hi * 256 + (fold start msg).lo
        ≡ serial_crc 0xFFFF msg % 256 * 256 + serial_crc 0xFFFF msg / 256
    value = omega (arith, fold-register msg start (omega arith) b, valid)

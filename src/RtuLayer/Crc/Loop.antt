-- ===== src/RtuLayer/Crc/Loop.antt =====
-- The loop of `crc16` as a fold over the bytes that it reads.
use libmodbuspp.Base.{
  ℕ, zero, suc, ◌+◌, ◌*◌, ◌^◌, ◌≤◌, ◌<◌, bit_or, ◌≡◌, refl, ap, ◌∙◌, arith, List, [], ◌∷◌, ◌++◌,
  length, take, get_or, ok, IsBytes, All-take, ltb, ltb→lt, bit_xor, true,
}
use libmodbuspp.Base.Bits.{tried_below, tried_at, bit_xor-byte, bit_or_fields}
use libmodbuspp.RtuLayer.Tables.{crc_hi_table, crc_lo_table}
use libmodbuspp.RtuLayer.Crc.{Crc, crc_step, crc_loop, crc16}

abbrev pub IsCrc : Crc → Type 0
IsCrc c = (c.hi < 256) × (c.lo < 256)

abbrev pub start : Crc
start = record { hi = 0xFF; lo = 0xFF }

unfoldable pub fold : Crc → List ℕ → Crc
fold c [] = c
fold c (x ∷ xs) = fold (crc_step c x) xs

hi_bytes : tried_below 256 (λ i. ltb (get_or crc_hi_table i 0) 256) ≡ true
unfolding tried_below
hi_bytes = refl

lo_bytes : tried_below 256 (λ i. ltb (get_or crc_lo_table i 0) 256) ≡ true
unfolding tried_below
lo_bytes = refl

pub hi_byte : (i : ℕ) → i < 256 → get_or crc_hi_table i 0 < 256
hi_byte i h = ltb→lt _ _ (tried_at 256 _ i hi_bytes h)

lo_byte : (i : ℕ) → i < 256 → get_or crc_lo_table i 0 < 256
lo_byte i h = ltb→lt _ _ (tried_at 256 _ i lo_bytes h)

pub crc_step-IsCrc : (c : Crc) (x : ℕ) → IsCrc c → x < 256 → IsCrc (crc_step c x)
unfolding crc_step
crc_step-IsCrc c x v h =
    let i<256 : bit_xor c.hi x < 256 = bit_xor-byte c.hi x v.0 h in
    (
      bit_xor-byte c.lo (get_or crc_hi_table (bit_xor c.hi x) 0) v.1
          (hi_byte (bit_xor c.hi x) i<256),
      lo_byte (bit_xor c.hi x) i<256,
    )

pub fold-IsCrc : (c : Crc) (xs : List ℕ) → IsCrc c → IsBytes xs → IsCrc (fold c xs)
unfolding fold
fold-IsCrc c [] v h = v
fold-IsCrc c (x ∷ xs) v h = fold-IsCrc (crc_step c x) xs (crc_step-IsCrc c x v h.0) h.1

pub fold-append : (c : Crc) (xs ys : List ℕ) → fold c (xs ++ ys) ≡ fold (fold c xs) ys
unfolding fold
fold-append c [] ys = refl
fold-append c (x ∷ xs) ys = fold-append (crc_step c x) xs ys

pub crc_loop-eq-fold :
    (n : ℕ) (xs : List ℕ) (c : Crc)
    → n ≤ length xs
    → crc_loop n xs c ≡ (let d = fold c (take n xs) in ok (bit_or (d.hi * 2 ^ 8) d.lo))
unfolding crc_loop fold
crc_loop-eq-fold zero xs c h = refl
crc_loop-eq-fold (suc n) [] c h = absurd (omega arith)
crc_loop-eq-fold (suc n) (x ∷ xs) c h = crc_loop-eq-fold n xs (crc_step c x) (omega arith)

-- Over a buffer of bytes that holds `count` of them, `crc16` returns the two bytes that the fold
-- over these bytes leaves, the high one first.
pub crc16-eq-fold :
    (buf : List ℕ) (count : ℕ)
    → IsBytes buf
    → count ≤ length buf
    → crc16 buf count ≡ (let d = fold start (take count buf) in ok (d.hi * 256 + d.lo))
unfolding crc16
crc16-eq-fold buf count b h =
    crc_loop-eq-fold count buf start h
    ∙ ap ok (
        bit_or_fields 8 d.hi d.lo
          (fold-IsCrc start (take count buf) (omega arith) (All-take (λ x. x < 256) count buf b)).1)
  where
    d : Crc
    d = fold start (take count buf)

crc_loop-append :
    (xs ys : List ℕ) (c : Crc) → crc_loop (length xs) (xs ++ ys) c ≡ crc_loop (length xs) xs c
unfolding crc_loop
crc_loop-append [] ys c = refl
crc_loop-append (x ∷ xs) ys c = crc_loop-append xs ys (crc_step c x)

-- What follows the bytes that are counted does not matter.
pub crc16-append : (xs ys : List ℕ) → crc16 (xs ++ ys) (length xs) ≡ crc16 xs (length xs)
unfolding crc16
crc16-append xs ys = crc_loop-append xs ys start

-- The CRC of bytes is a `uint16_t`.
pub crc16-total :
    (xs : List ℕ) → IsBytes xs → (crc : ℕ) × (crc16 xs (length xs) ≡ ok crc) × (crc < 65536)
crc16-total xs b =
    let d = fold start (take (length xs) xs) in
    let v : IsCrc d =
      fold-IsCrc start (take (length xs) xs) (omega arith)
        (All-take (λ x. x < 256) (length xs) xs b) in
    (d.hi * 256 + d.lo, crc16-eq-fold xs (length xs) b (omega arith), omega (arith, v))

-- The loop ends without a fault on any buffer that is long enough.
crc_loop-returns :
    (n : ℕ) (xs : List ℕ) (c : Crc) → n ≤ length xs → (r : ℕ) × (crc_loop n xs c ≡ ok r)
crc_loop-returns n xs c h = (_, crc_loop-eq-fold n xs c h)

pub crc16-returns : (xs : List ℕ) (n : ℕ) → n ≤ length xs → (r : ℕ) × (crc16 xs n ≡ ok r)
unfolding crc16
crc16-returns xs n h = crc_loop-returns n xs start h

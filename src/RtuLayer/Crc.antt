-- ===== src/RtuLayer/Crc.antt =====
-- `RtuLayer::crc16` of src/rtulayer.cpp.
pub mod Loop
pub mod Residue
pub mod Detect
pub mod Bitwise
use libmodbuspp.Base.{
  ℕ, zero, suc, ◌*◌, ◌^◌, bit_or, bit_xor, List, [], ◌∷◌, get_or, Outcome, ok, fault,
}
use libmodbuspp.RtuLayer.Tables.{crc_hi_table, crc_lo_table}

-- The two bytes that the loop keeps.
pub record Crc : Type 0 where
  pub hi : ℕ
  pub lo : ℕ

-- One round: `i` is below 256, as both of its operands are bytes.
unfoldable pub crc_step : Crc → ℕ → Crc
crc_step c x =
    let i = bit_xor c.hi x in
    record { hi = bit_xor c.lo (get_or crc_hi_table i 0); lo = get_or crc_lo_table i 0 }

-- `while (count--)` over what is left of the buffer; reading past its end is undefined.
unfoldable pub crc_loop : ℕ → List ℕ → Crc → Outcome ℕ
crc_loop zero buf c = ok (bit_or (c.hi * 2 ^ 8) c.lo)
crc_loop (suc count) [] c = fault
crc_loop (suc count) (x ∷ buf) c = crc_loop count buf (crc_step c x)

unfoldable pub crc16 : List ℕ → ℕ → Outcome ℕ
crc16 buf count = crc_loop count buf (record { hi = 0xFF; lo = 0xFF })

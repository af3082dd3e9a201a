-- ===== src/Data.antt =====
-- `Data <T, e>` of include/modbuspp/data.h: a value in memory and the registers that carry it.
pub mod Words
pub mod RoundTrip
pub mod Orders
pub mod Width
use libmodbuspp.Base.{ℕ, List, map, replicate}
use libmodbuspp.Swap.{
  swap_words, swap_bytes_in_words, swap_bytes, hton, ntoh, swap_word, to_words, from_words,
}

pub data Endian : Type 0 where
  big_big : Endian
  big_little : Endian
  little_big : Endian
  little_little : Endian

-- The bytes of `m_value`, of type `T`, and the words of `m_registers`.
pub record Data : Type 0 where
  pub value : List ℕ
  pub endian : Endian
  pub registers : List ℕ

-- `swap (v)`
unfoldable pub swap : Endian → List ℕ → List ℕ
swap big_big v = v
swap big_little v = swap_words v
swap little_big v = swap_bytes_in_words v
swap little_little v = swap_bytes v

-- `hton` and `ntoh` on a register are `swapBytes`.
unfoldable pub update_registers : Data → Data
update_registers d =
    let v = swap d.endian (hton d.value) in record d { registers = map swap_word (to_words v) }

unfoldable pub update_value : Data → Data
update_value d =
    let rs = map swap_word d.registers in
    record d { value = ntoh (swap d.endian (from_words rs)); registers = rs }

-- `operator=` and `setEndianness`
unfoldable pub assign : Data → List ℕ → Data
assign d t = update_registers (record d { value = t })

unfoldable pub set_endianness : Data → Endian → Data
set_endianness d e = update_registers (record d { endian = e })

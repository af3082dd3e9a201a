-- ===== src/Tests/Values.antt =====
-- Values, their bytes and their registers.
use libmodbuspp.Base.{refl, ◌≡◌, arith, [], ◌∷◌}
use libmodbuspp.Data.{
  Data, big_big, big_little, little_big, little_little, update_registers, update_value,
  set_endianness,
}
use libmodbuspp.Data.Orders.{registers_by_order}
use libmodbuspp.Data.RoundTrip.{registers_carry_value}

-- 0x04030201 as a 32-bit integer.
registers_carry_value_example :
    Data.value (
      update_value
        (record (update_registers
          (record { value = 1 ∷ 2 ∷ 3 ∷ 4 ∷ []; endian = big_little; registers = [] })) {
            value = 9 ∷ 9 ∷ 9 ∷ 9 ∷ [];
          }))
    ≡ 1 ∷ 2 ∷ 3 ∷ 4 ∷ []
registers_carry_value_example =
    registers_carry_value big_little (1 ∷ 2 ∷ 3 ∷ 4 ∷ []) (9 ∷ 9 ∷ 9 ∷ 9 ∷ []) [] (omega arith)
      (omega arith)

-- The float 12.5, 0x41480000, on a little endian host.
abbrev float_value : Data
float_value = record { value = 0 ∷ 0 ∷ 0x48 ∷ 0x41 ∷ []; endian = big_little; registers = [] }

registers_by_order_example :
    ((set_endianness float_value big_big).registers ≡ 0x4148 ∷ 0 ∷ [])
    × ((set_endianness float_value big_little).registers ≡ 0 ∷ 0x4148 ∷ [])
    × ((set_endianness float_value little_big).registers ≡ 0x4841 ∷ 0 ∷ [])
    × ((set_endianness float_value little_little).registers ≡ 0 ∷ 0x4841 ∷ [])
registers_by_order_example =
    registers_by_order 0x41 0x48 0 0 float_value (omega arith) (omega arith) (omega arith)
      (omega arith) refl

-- ===== src/Tests/Blocks.antt =====
-- Blocks of the configuration of a slave.
use libmodbuspp.Base.{◌≡◌, refl, arith, true, none, some, [], ◌∷◌, pos, ◌+ℤ◌, ◌-ℤ◌, ok}
use libmodbuspp.Slave.{is_open, is_valid, pdu_address, data_address}
use libmodbuspp.BufferedSlave.Block.{in_block, write_block}
use libmodbuspp.BufferedSlave.Block.Valid.{Holds}
use libmodbuspp.BufferedSlave.Allocate.{set_table, set_bit_table, resize_tab, calloc, resized}
use libmodbuspp.BufferedSlave.Tables.{
  BufferedSlave, coil, set_block, set_coil_block, empty_block, write_coils,
}
use libmodbuspp.BufferedSlave.Access.{read_table}
use libmodbuspp.Json.Bits.{get_bit_values, bit_of_number, write_bits}
use libmodbuspp.Json.Blocks.{set_config_block}
use libmodbuspp.Json.ConfiguredBits.{bit_block, configured, set_config_block-read}
use libmodbuspp.Tests.Tables.{nobody, lone, lone-closed, thousand}
use libmodbuspp.Tests.Config.{reader}

-- A slave without tables.
abbrev bare : BufferedSlave
bare = record {
  base = lone;
  map = record {
    bits = empty_block;
    input_bits = empty_block;
    registers = empty_block;
    input_registers = empty_block;
  };
  id_report = [];
}

three_bits : get_bit_values reader (pos 4) (1 ∷ 0 ∷ 1 ∷ []) ≡ ok (1 ∷ 0 ∷ 1 ∷ [])
unfolding get_bit_values bit_of_number ◌-ℤ◌
three_bits = refl

-- Three values for the third of four coils and those after it: two of them fit.
set_config_block-read_example :
    (let s' =
        configured reader thousand nobody bare 0 true 4
          (some (pos 21))
          (some (pos 23))
          none
          (1 ∷ 0 ∷ 1 ∷ [])
          (1 ∷ 0 ∷ 1 ∷ [])
          2
          (omega arith)
          refl in
      (set_config_block reader thousand nobody bare 0
          (bit_block true 4 (some (pos 21)) (some (pos 23)) none (1 ∷ 0 ∷ 1 ∷ []))
        ≡ ok (s', 0))
      × (read_table coil nobody s' 0 (pos 23) (pos 3) ≡ ok (s', 0, pos 2, 1 ∷ 0 ∷ []))
      × Holds s'.map.bits (0 ∷ 0 ∷ 1 ∷ 0 ∷ []))
unfolding ◌+ℤ◌
set_config_block-read_example =
    set_config_block-read reader thousand nobody bare 0 true 4 (some (pos 21)) (some (pos 23)) none
      (1 ∷ 0 ∷ 1 ∷ []) (1 ∷ 0 ∷ 1 ∷ []) 2 (omega arith) refl lone-closed refl refl refl
      (omega arith) three_bits (omega arith)

-- Values without an address of their own are lost in a table that starts elsewhere.
values_lost :
    set_config_block reader thousand nobody bare 0
      (bit_block true 4 (some (pos 21)) none none (1 ∷ 0 ∷ 1 ∷ []))
    ≡ ok (
      record bare {
        map = record bare.map {
          bits = record { nb = pos 4; start = pos 20; tab = some (0 ∷ 0 ∷ 0 ∷ 0 ∷ []) };
        };
      },
      1,
    )
unfolding set_config_block set_block set_coil_block set_bit_table set_table resize_tab calloc
    resized write_bits write_coils write_block in_block get_bit_values bit_of_number is_open
    is_valid pdu_address data_address ◌+ℤ◌ ◌-ℤ◌
values_lost = refl

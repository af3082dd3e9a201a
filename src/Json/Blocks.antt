-- ===== src/Json/Blocks.antt =====
-- `writeRegisters` of src/json_p.h, and `setConfig` of src/slave.cpp, src/bufferedslave.cpp and
-- src/server.cpp.
use libmodbuspp.Base.{
  ℕ, ◌*◌, ◌/◌, ◌&&◌, none, some, List, [], ◌∷◌, length, ltb, if◌then◌else◌, ℤ, pos, ltb_ℤ, pos_part,
  neg_part, sub_ℕ, Outcome, ok, ◌>>=◌,
}
use libmodbuspp.Data.{Data, big_big}
use libmodbuspp.Slave.{Slave, Client, data_address, set_number, set_pdu_addressing}
use libmodbuspp.BufferedSlave.Allocate.{Allocator}
use libmodbuspp.BufferedSlave.Tables.{
  BufferedSlave, Table, input_register, holding_register, set_block,
}
use libmodbuspp.BufferedSlave.Values.{write_data, write_input_data}
use libmodbuspp.Json.{
  Reader, DataEnum, uint16, uint32, uint64, int16, int32, int64, Block, SlaveConfig, mandatory,
  get_or_default, size_of,
}
use libmodbuspp.Json.Numbers.{get_data_values}
use libmodbuspp.Json.Bits.{write_bits}

-- The product of an `int` and a size.
abbrev pub times : ℤ → ℕ → ℤ
times n k = sub_ℕ (pos_part n * k) (neg_part n * k)

module _ {J W : Type 0} (json : Reader J) (c : Client W) (s : BufferedSlave) (w : W)
    (block : Block J) where
  abbrev pub write_vector_to : Table → ℤ → List Data → Outcome (BufferedSlave × W × ℤ)
  write_vector_to t addr vect = elim t [
    | holding_register ↦ write_data c s w addr vect (pos (length vect)) >>= λ r. ok r.1
    | other ↦ write_input_data c s w addr vect (pos (length vect)) >>= λ r. ok r.1
  ]

  abbrev pub write_numbers : DataEnum → List J → Outcome (BufferedSlave × W × ℤ)
  write_numbers type values =
      get_data_values json type (get_or_default block.endian big_big) values >>= λ vect.
      let addr = get_or_default block.values_address (data_address s.base (pos 0)) in
      let written : Outcome (BufferedSlave × W × ℤ) =
        (mandatory block.table >>= λ t. write_vector_to t addr vect) in
      if ltb 0 (length vect) then written else ok (s, w, pos 0)

  -- The template `writeRegisters`, of the type that the enumerator names.
  unfoldable pub write_registers_as : DataEnum → Outcome (BufferedSlave × W × ℤ)
  write_registers_as type = mandatory block.quantity >>= λ nmemb. elim block.values [
    | none ↦ ok (s, w, pos 0)
    | some values ↦
        if ltb 0 (length values) && ltb_ℤ (pos 0) nmemb
        then write_numbers type values
        else ok (s, w, pos 0)
  ]

  -- The `switch` that picks the instance of the template.
  unfoldable pub write_registers_block : Outcome (BufferedSlave × W × ℤ)
  write_registers_block = elim (get_or_default block.data_type uint16) [
    | uint16 ↦ write_registers_as uint16
    | uint32 ↦ write_registers_as uint32
    | uint64 ↦ write_registers_as uint64
    | int16 ↦ write_registers_as int16
    | int32 ↦ write_registers_as int32
    | int64 ↦ write_registers_as int64
  ]

  abbrev pub write_block_values : Table → Outcome (BufferedSlave × W × ℤ)
  write_block_values t = elim t [
    | input_register ↦ write_registers_block
    | holding_register ↦ write_registers_block
    | bits ↦ write_bits json c s w block
  ]

module _ {J : Type 0} where
  -- `setConfig` of a slave.
  unfoldable pub set_config_slave : Slave → SlaveConfig J → Outcome Slave
  set_config_slave s config = mandatory config.id >>= λ i.
      let s' = set_number s i in
      ok (elim config.pdu_addressing [ none ↦ s' | some b ↦ set_pdu_addressing s' b ])

module _ {J W : Type 0} (json : Reader J) (al : Allocator) (c : Client W) where
  -- A round of the loop over the blocks.
  unfoldable pub set_config_block : BufferedSlave → W → Block J → Outcome (BufferedSlave × W)
  set_config_block s w block = mandatory block.table >>= λ t.
      mandatory block.quantity >>= λ quantity.
      let start = get_or_default block.starting_address (data_address s.base (pos 0)) in
      let nmemb : ℤ = elim block.data_type [
        | none ↦ quantity
        | some d ↦ times quantity (size_of d / 2)
      ] in
      set_block al s t nmemb start >>= λ r.
      let s' = r.0 in
      elim block.values [
        | none ↦ ok (s', w)
        | some values ↦ write_block_values json c s' w block t >>= λ r'. ok (r'.0, r'.1)
      ]

  unfoldable pub set_config_blocks :
      BufferedSlave → W → List (Block J) → Outcome (BufferedSlave × W)
  set_config_blocks s w [] = ok (s, w)
  set_config_blocks s w (b ∷ blocks) =
      set_config_block s w b >>= λ r. set_config_blocks r.0 r.1 blocks

  unfoldable pub set_config : BufferedSlave → W → SlaveConfig J → Outcome (BufferedSlave × W)
  set_config s w config = set_config_slave s.base config >>= λ base.
      set_config_blocks (record s { base = base }) w config.blocks

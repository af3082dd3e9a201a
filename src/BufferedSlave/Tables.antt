-- ===== src/BufferedSlave/Tables.antt =====
-- The operations of a `BufferedSlave` on its four tables, and those that set a table's size.
use libmodbuspp.Base.{
  ℕ, Bool, not, Option, none, List, [], ◌∷◌, ◌==◌, if◌then◌else◌, ℤ, pos, ltb_ℤ, leb_ℤ, Outcome, ok,
  ◌>>=◌,
}
use libmodbuspp.Slave
use libmodbuspp.Slave.{Slave, Client, Reply, minus_one, is_open, pdu_address}
use libmodbuspp.BufferedSlave.Block.{Block, read_block, write_block, store_block}
use libmodbuspp.BufferedSlave.Allocate.{Allocator, set_bit_table, set_register_table}

-- `enum Table` of include/modbuspp/global.h
pub data Table : Type 0 where
  discrete_input coil input_register holding_register : Table

-- `modbus_mapping_t`
pub record Mapping : Type 0 where
  pub bits : Block
  pub input_bits : Block
  pub registers : Block
  pub input_registers : Block

-- `BufferedSlave::Private`, without the callbacks, which belong to the server.
pub record BufferedSlave : Type 0 where
  pub base : Slave
  pub map : Mapping
  pub id_report : List ℕ

abbrev pub table_of : Table → Mapping → Block
table_of coil m = m.bits
table_of discrete_input m = m.input_bits
table_of holding_register m = m.registers
table_of input_register m = m.input_registers

abbrev pub with_table : Table → Mapping → Block → Mapping
with_table coil m b = record m { bits = b }
with_table discrete_input m b = record m { input_bits = b }
with_table holding_register m b = record m { registers = b }
with_table input_register m b = record m { input_registers = b }

abbrev pub put_table : Table → BufferedSlave → Block → BufferedSlave
put_table t s b = record s { map = with_table t s.map b }

-- `modbus_mapping_new (0, 0, 0, 0)`
abbrev pub empty_block : Block
empty_block = record { nb = pos 0; start = pos 0; tab = none }

unfoldable pub create : ℤ → Option Slave.DeviceView → BufferedSlave
create s d = record {
  base = Slave.create s d;
  map = record {
    bits = empty_block;
    input_bits = empty_block;
    registers = empty_block;
    input_registers = empty_block;
  };
  id_report = [];
}

-- `isValid`, which asks for a number only.
unfoldable pub is_valid : BufferedSlave → Bool
is_valid s = leb_ℤ (pos 0) s.base.id

module _ (al : Allocator) (s : BufferedSlave) where
  abbrev placed : Table → Outcome (Block × ℤ) → Outcome (BufferedSlave × ℤ)
  placed t m = m >>= λ r. ok (put_table t s r.0, r.1)

  unfoldable pub set_coil_block : ℤ → ℤ → Outcome (BufferedSlave × ℤ)
  set_coil_block addr nmemb = placed coil (set_bit_table al s.base s.map.bits addr nmemb)

  unfoldable pub set_discrete_input_block : ℤ → ℤ → Outcome (BufferedSlave × ℤ)
  set_discrete_input_block addr nmemb =
      placed discrete_input (set_bit_table al s.base s.map.input_bits addr nmemb)

  unfoldable pub set_holding_register_block : ℤ → ℤ → Outcome (BufferedSlave × ℤ)
  set_holding_register_block addr nmemb =
      placed holding_register (set_register_table al s.base s.map.registers addr nmemb)

  unfoldable pub set_input_register_block : ℤ → ℤ → Outcome (BufferedSlave × ℤ)
  set_input_register_block addr nmemb =
      placed input_register (set_register_table al s.base s.map.input_registers addr nmemb)

  -- `setBlock`, whose address defaults to the first of the table.
  unfoldable pub set_block : Table → ℤ → ℤ → Outcome (BufferedSlave × ℤ)
  set_block t nmemb start_addr =
      let first = if s.base.pdu_addressing then pos 0 else pos 1 in
      let addr = if ltb_ℤ start_addr (pos 0) then first else start_addr in
      elim t [
        | discrete_input ↦ set_discrete_input_block addr nmemb
        | coil ↦ set_coil_block addr nmemb
        | input_register ↦ set_input_register_block addr nmemb
        | holding_register ↦ set_holding_register_block addr nmemb
      ]

-- `value != 0`
abbrev pub as_bool : ℕ → Bool
as_bool x = not (x == 0)

module _ {W : Type 0} (c : Client W) (s : BufferedSlave) (w : W) where
  abbrev opened : Bool
  opened = is_open s.base

  abbrev read_table :
      Table → (W → ℤ → ℤ → Outcome (W × Reply)) → ℤ → ℤ → Outcome (BufferedSlave × W × ℤ × List ℕ)
  read_table t remote addr nb =
      read_block c.set_einval (table_of t s.map) opened (λ w n. remote w addr n) w
        (pdu_address s.base addr) nb
      >>= λ r. ok (put_table t s r.0, r.1, r.2, r.3)

  unfoldable pub read_coils : ℤ → ℤ → Outcome (BufferedSlave × W × ℤ × List ℕ)
  read_coils addr nb = read_table coil (Slave.read_coils c s.base) addr nb

  unfoldable pub read_discrete_inputs : ℤ → ℤ → Outcome (BufferedSlave × W × ℤ × List ℕ)
  read_discrete_inputs addr nb =
      read_table discrete_input (Slave.read_discrete_inputs c s.base) addr nb

  unfoldable pub read_registers : ℤ → ℤ → Outcome (BufferedSlave × W × ℤ × List ℕ)
  read_registers addr nb = read_table holding_register (Slave.read_registers c s.base) addr nb

  unfoldable pub read_input_registers : ℤ → ℤ → Outcome (BufferedSlave × W × ℤ × List ℕ)
  read_input_registers addr nb =
      read_table input_register (Slave.read_input_registers c s.base) addr nb

  abbrev wrote : Table → Outcome (Block × W × ℤ) → Outcome (BufferedSlave × W × ℤ)
  wrote t m = m >>= λ r. ok (put_table t s r.0, r.1, r.2)

  unfoldable pub write_coils : ℤ → List ℕ → ℤ → Outcome (BufferedSlave × W × ℤ)
  write_coils addr src nb = wrote coil (
      write_block c.set_einval s.map.bits opened
        (λ w x. Slave.write_coil c s.base w addr (as_bool x))
        (λ w xs n. Slave.write_coils c s.base w addr xs n) w (pdu_address s.base addr) src nb)

  unfoldable pub write_coil : ℤ → Bool → Outcome (BufferedSlave × W × ℤ)
  write_coil addr value = write_coils addr ((if value then 1 else 0) ∷ []) (pos 1)

  unfoldable pub write_registers : ℤ → List ℕ → ℤ → Outcome (BufferedSlave × W × ℤ)
  write_registers addr src nb = wrote holding_register (
      write_block c.set_einval s.map.registers opened
        (λ w x. Slave.write_register c s.base w addr x)
        (λ w xs n. Slave.write_registers c s.base w addr xs n) w (pdu_address s.base addr) src nb)

  unfoldable pub write_register : ℤ → ℕ → Outcome (BufferedSlave × W × ℤ)
  write_register addr value = write_registers addr (value ∷ []) (pos 1)

  unfoldable pub write_discrete_inputs : ℤ → List ℕ → ℤ → Outcome (BufferedSlave × W × ℤ)
  write_discrete_inputs addr src nb =
      wrote discrete_input
        (store_block c.set_einval s.map.input_bits w (pdu_address s.base addr) src nb)

  unfoldable pub write_discrete_input : ℤ → Bool → Outcome (BufferedSlave × W × ℤ)
  write_discrete_input addr value =
      write_discrete_inputs addr ((if value then 1 else 0) ∷ []) (pos 1)

  unfoldable pub write_input_registers : ℤ → List ℕ → ℤ → Outcome (BufferedSlave × W × ℤ)
  write_input_registers addr src nb =
      wrote input_register
        (store_block c.set_einval s.map.input_registers w (pdu_address s.base addr) src nb)

  unfoldable pub write_input_register : ℤ → ℕ → Outcome (BufferedSlave × W × ℤ)
  write_input_register addr value = write_input_registers addr (value ∷ []) (pos 1)

-- ===== src/BufferedSlave/Access.antt =====
-- The accesses of a `BufferedSlave` by the table that they are for.
use libmodbuspp.Base.{ℕ, List, ℤ, Outcome}
use libmodbuspp.Slave.{Client}
use libmodbuspp.BufferedSlave.Tables.{
  BufferedSlave, Table, discrete_input, coil, input_register, holding_register, read_coils,
  read_discrete_inputs, read_registers, read_input_registers, write_coils, write_discrete_inputs,
  write_registers, write_input_registers,
}

module _ {W : Type 0} (t : Table) (c : Client W) (s : BufferedSlave) (w : W) (addr : ℤ) where
  abbrev pub read_table : ℤ → Outcome (BufferedSlave × W × ℤ × List ℕ)
  read_table nb = elim t [
    | discrete_input ↦ read_discrete_inputs c s w addr nb
    | coil ↦ read_coils c s w addr nb
    | input_register ↦ read_input_registers c s w addr nb
    | holding_register ↦ read_registers c s w addr nb
  ]

  abbrev pub write_table : List ℕ → ℤ → Outcome (BufferedSlave × W × ℤ)
  write_table src nb = elim t [
    | discrete_input ↦ write_discrete_inputs c s w addr src nb
    | coil ↦ write_coils c s w addr src nb
    | input_register ↦ write_input_registers c s w addr src nb
    | holding_register ↦ write_registers c s w addr src nb
  ]

-- ===== src/BufferedSlave/RoundTrip/Any.antt =====
-- The round trip of values through any table of a slave whose device is not open.
use libmodbuspp.Base.{ℕ, ◌-◌, ◌≤◌, ◌<◌, min, ◌≡◌, false, List, length, take, pos, ok}
use libmodbuspp.Slave.{Client, is_open}
use libmodbuspp.BufferedSlave.Block.Valid.{Holds}
use libmodbuspp.BufferedSlave.Tables.{
  BufferedSlave, Table, discrete_input, coil, input_register, holding_register, table_of,
}
use libmodbuspp.BufferedSlave.Access.{read_table, write_table}
use libmodbuspp.BufferedSlave.RoundTrip.{
  written, address, after_write, write_coils-read_coils, write_registers-read_registers,
  write_discrete_inputs-read_discrete_inputs, write_input_registers-read_input_registers,
}

module _ {W : Type 0} (c : Client W) (s : BufferedSlave) (w : W) (xs src : List ℕ) (k n : ℕ) where
  -- While its device is not open, any table of a slave, if it is whole, takes the values that are
  -- written from its `k`-th element on, as far as they fit, and a read at that place returns the
  -- same values. Both return their number, and leave the state outside and the other tables alone.
  pub write_table-read_table :
      (t : Table)
      → is_open s.base ≡ false
      → Holds (table_of t s.map) xs
      → k < length xs
      → n ≤ length src
      → let m = min n (length xs - k) in
        let s' = after_write c s w xs src k n t in
        let at = address c s w xs src k n t in
        (write_table t c s w at src (pos n) ≡ ok (s', w, pos m))
        × (read_table t c s' w at (pos n) ≡ ok (s', w, pos m, take m src))
        × Holds (table_of t s'.map) (written xs k n src)
  write_table-read_table coil = write_coils-read_coils c s w xs src k n
  write_table-read_table discrete_input =
      write_discrete_inputs-read_discrete_inputs c s w xs src k n
  write_table-read_table holding_register = write_registers-read_registers c s w xs src k n
  write_table-read_table input_register =
      write_input_registers-read_input_registers c s w xs src k n

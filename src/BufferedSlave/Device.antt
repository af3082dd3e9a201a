-- ===== src/BufferedSlave/Device.antt =====
-- What a `BufferedSlave` exchanges with the device behind it: whole tables, the registers of a
-- combined write and read, the report of its number, and the part of a table that a request names.
use libmodbuspp.Base.{
  ℕ, ◌%◌, ◌^◌, Bool, true, false, ◌&&◌, none, some, List, [], ◌∷◌, length, resize, min, take,
  if◌then◌else◌, ℤ, pos, ◌-ℤ◌, leb_ℤ, ltb_ℤ, eqb_ℤ, to_size, Outcome, ok, fault, ◌>>=◌,
}
use libmodbuspp.Slave
use libmodbuspp.Slave.{Slave, Client, Reply, minus_one, is_open, pdu_address, data_address}
use libmodbuspp.BufferedSlave.Block.{Block, in_block, clipped, copy_out, copy_in, copy_from, first}
use libmodbuspp.BufferedSlave.Tables.{
  Table, coil, discrete_input, input_register, holding_register, BufferedSlave, table_of, put_table,
  as_bool, read_coils, read_discrete_inputs, read_registers, read_input_registers, write_coil,
  write_coils, write_register, write_registers,
}

module _ {W : Type 0} (c : Client W) (s : BufferedSlave) (w : W) where
  -- `writeReadRegisters`, once both addresses are in the table.
  unfoldable pub exchange :
      ℤ → List ℕ → ℤ → ℤ → ℤ → ℤ → ℤ → Outcome (BufferedSlave × W × ℤ × List ℕ)
  exchange write_addr write_src write_nb read_addr read_nb offset_write offset_read = do
    tab ← copy_from s.map.registers.tab offset_write write_src write_nb
    let s' = put_table holding_register s (record s.map.registers { tab = tab })
    src ← copy_out tab offset_write write_nb
    let local = do xs ← copy_out tab offset_read read_nb; ok (s', w, read_nb, xs)
    let remote = do
      (w', r) ← Slave.write_read_registers c s.base w write_addr src write_nb read_addr read_nb
      tab' ← copy_in tab offset_read r.stored
      let s'' = put_table holding_register s' (record s.map.registers { tab = tab' })
      let done = do xs ← copy_out tab' offset_read r.rc; ok (s'', w', r.rc, xs)
      if leb_ℤ (pos 0) r.rc then done else ok (s'', w', r.rc, [])
    if is_open s.base then remote else local

  unfoldable pub write_read_registers :
      ℤ → List ℕ → ℤ → ℤ → ℤ → Outcome (BufferedSlave × W × ℤ × List ℕ)
  write_read_registers write_addr write_src write_nb read_addr read_nb =
      let b = s.map.registers in
      let offset_read = pdu_address s.base read_addr -ℤ b.start in
      let offset_write = pdu_address s.base write_addr -ℤ b.start in
      if in_block b (pdu_address s.base read_addr) && in_block b (pdu_address s.base write_addr)
      then exchange write_addr write_src (clipped b offset_write write_nb) read_addr
          (clipped b offset_read read_nb) offset_write offset_read
      else ok (s, c.set_einval w, minus_one, [])

  -- `dest` receives as many bytes of the report as fit into `max_dest`, a `uint16_t`.
  unfoldable pub hand_out : BufferedSlave → W → ℕ → Outcome (BufferedSlave × W × ℤ × List ℕ)
  hand_out s' w' max_dest =
      let n = min max_dest (length s'.id_report % 2 ^ 16) in ok (s', w', pos n, take n s'.id_report)

  -- The report buffer after `modbus_report_slave_id` has stored into it.
  abbrev pub stored_report : List ℕ → Outcome (List ℕ)
  stored_report stored =
      copy_in (some (resize s.id_report c.max_pdu_length 0)) (pos 0) stored >>= λ tab. elim tab [
        | none ↦ fault
        | some ys ↦ ok ys
      ]

  unfoldable pub report_slave_id : ℕ → Outcome (BufferedSlave × W × ℤ × List ℕ)
  report_slave_id max_dest =
      let asked : Outcome (BufferedSlave × W × ℤ × List ℕ) =
        (Slave.report_slave_id c s.base w c.max_pdu_length >>= λ r.
        stored_report r.1.stored >>= λ ys.
        if ltb_ℤ r.1.rc (pos 0)
        then ok (record s { id_report = ys }, r.0, r.1.rc, [])
        else hand_out (record s { id_report = resize ys (to_size r.1.rc) 0 }) r.0 max_dest) in
      if is_open s.base then asked else hand_out s w max_dest

  -- A whole table from the device. The values go to the table itself: `dest` is the table, so that
  -- the `memcpy` of the read copies the table to itself. C does not define that; it is taken to
  -- leave the table as it is.
  abbrev update_from :
      Table → (ℤ → ℤ → Outcome (BufferedSlave × W × ℤ × List ℕ)) → Outcome (BufferedSlave × W × ℤ)
  update_from t read =
      let b = table_of t s.map in
      if is_open s.base && ltb_ℤ (pos 0) b.nb
      then (read (data_address s.base b.start) b.nb >>= λ r. ok (r.0, r.1, r.2))
      else ok (s, w, pos 0)

  unfoldable pub update_discrete_input_block_from_slave : Outcome (BufferedSlave × W × ℤ)
  update_discrete_input_block_from_slave = update_from discrete_input (read_discrete_inputs c s w)

  unfoldable pub update_coil_block_from_slave : Outcome (BufferedSlave × W × ℤ)
  update_coil_block_from_slave = update_from coil (read_coils c s w)

  unfoldable pub update_holding_register_block_from_slave : Outcome (BufferedSlave × W × ℤ)
  update_holding_register_block_from_slave = update_from holding_register (read_registers c s w)

  unfoldable pub update_input_register_block_from_slave : Outcome (BufferedSlave × W × ℤ)
  update_input_register_block_from_slave = update_from input_register (read_input_registers c s w)

  -- A whole table to the device: one value by the function for one, more by that for many.
  abbrev update_to :
      Block
      → (ℤ → ℕ → Outcome (BufferedSlave × W × ℤ))
      → (ℤ → List ℕ → ℤ → Outcome (BufferedSlave × W × ℤ))
      → Outcome (BufferedSlave × W × ℤ)
  update_to b one many =
      let addr = data_address s.base b.start in
      let contents : Outcome (List ℕ) = elim b.tab [ none ↦ fault | some xs ↦ ok xs ] in
      let sent : Outcome (BufferedSlave × W × ℤ) =
        (contents >>= λ xs.
        if eqb_ℤ b.nb (pos 1) then (first xs >>= λ x. one addr x) else many addr xs b.nb) in
      if is_open s.base && ltb_ℤ (pos 0) b.nb then sent else ok (s, w, pos 0)

  unfoldable pub update_slave_coil_from_block : Outcome (BufferedSlave × W × ℤ)
  update_slave_coil_from_block =
      update_to s.map.bits (λ addr x. write_coil c s w addr (as_bool x)) (write_coils c s w)

  unfoldable pub update_slave_holding_register_from_block : Outcome (BufferedSlave × W × ℤ)
  update_slave_holding_register_from_block =
      update_to s.map.registers (write_register c s w) (write_registers c s w)

  -- The `switch` of `updateBlockFromSlave (Table)` and of `updateSlaveFromBlock (Table)`.
  unfoldable pub update_block_from_slave : Table → Outcome (BufferedSlave × W × ℤ)
  update_block_from_slave t = elim t [
    | discrete_input ↦ update_discrete_input_block_from_slave
    | coil ↦ update_coil_block_from_slave
    | input_register ↦ update_input_register_block_from_slave
    | holding_register ↦ update_holding_register_block_from_slave
  ]

  unfoldable pub update_slave_from_block : Table → Outcome (BufferedSlave × W × ℤ)
  update_slave_from_block t = elim t [
    | coil ↦ update_slave_coil_from_block
    | holding_register ↦ update_slave_holding_register_from_block
    | other ↦ ok (s, c.set_einval w, minus_one)
  ]

-- `updateBlockFromSlave ()` and `updateSlaveFromBlock ()`: the tables in turn, up to one that fails.
module _ {W : Type 0} (c : Client W) where
  abbrev pub updates :
      (BufferedSlave → W → Table → Outcome (BufferedSlave × W × ℤ))
      → List Table
      → BufferedSlave
      → W
      → Outcome (BufferedSlave × W × Bool)
  updates step [] s w = ok (s, w, true)
  updates step (t ∷ ts) s w = step s w t >>= λ r. elim (leb_ℤ (pos 0) r.2) [
    | true ↦ updates step ts r.0 r.1
    | false ↦ ok (r.0, r.1, false)
  ]

  unfoldable pub update_all_blocks_from_slave :
      BufferedSlave → W → Outcome (BufferedSlave × W × Bool)
  update_all_blocks_from_slave =
      updates (update_block_from_slave c)
        (coil ∷ holding_register ∷ discrete_input ∷ input_register ∷ [])

  unfoldable pub update_slave_from_all_blocks :
      BufferedSlave → W → Outcome (BufferedSlave × W × Bool)
  update_slave_from_all_blocks = updates (update_slave_from_block c) (coil ∷ holding_register ∷ [])

-- ===== src/BufferedSlave/SafeUpdate.antt =====
-- The exchange of whole tables with the device returns, and leaves the tables whole.
use libmodbuspp.Base.{
  ℕ, ◌≤◌, ◌≡◌, sym, subst, arith, true, ◌&&◌, inl, inr, none, some, List, [], ◌∷◌, length, ℤ, pos,
  ltb_ℤ, eqb_ℤ, Outcome, ok, fault, ◌>>=◌, Returns, Returns-ok, Returns-bind, Returns-test,
  Returns-map, if◌then◌else◌,
}
use libmodbuspp.Slave.{Client, is_open, data_address}
use libmodbuspp.BufferedSlave.Block.{Block, first}
use libmodbuspp.BufferedSlave.Block.Whole.{IsWhole}
use libmodbuspp.BufferedSlave.Block.SafeWrite.{first-one}
use libmodbuspp.BufferedSlave.Tables.{
  BufferedSlave, Table, discrete_input, coil, input_register, holding_register, table_of, as_bool,
  write_coil, write_coils, write_register, write_registers,
}
use libmodbuspp.BufferedSlave.Device.{
  update_block_from_slave, update_discrete_input_block_from_slave, update_coil_block_from_slave,
  update_holding_register_block_from_slave, update_input_register_block_from_slave,
  update_slave_from_block, update_slave_coil_from_block, update_slave_holding_register_from_block,
}
use libmodbuspp.BufferedSlave.Access.{read_table}
use libmodbuspp.BufferedSlave.Safe.{IsClient, AllWhole, read_table-ReadSafe, write_table-AllWhole}

-- A whole table has a size that is not negative.
IsWhole-size : (b : Block) → IsWhole b → (n : ℕ) × (b.nb ≡ pos n)
IsWhole-size b (inl e) = (0, e)
IsWhole-size b (inr (xs, v)) = (length xs, v.sized)

module _ {W : Type 0} (c : Client W) (s : BufferedSlave) (all : AllWhole s) (w : W) where
  abbrev Kept : BufferedSlave × W × ℤ → Type 0
  Kept r = AllWhole r.0

  -- `updateBlockFromSlave` of any table of a slave whose tables are whole returns, and leaves all
  -- tables whole.
  pub update_block_from_slave-AllWhole :
      (t : Table) → IsClient c → Returns Kept (update_block_from_slave c s w t)
  unfolding update_block_from_slave update_discrete_input_block_from_slave
      update_coil_block_from_slave update_holding_register_block_from_slave
      update_input_register_block_from_slave
  update_block_from_slave-AllWhole t client = updated t
    where
      from :
          (t : Table)
          → Returns Kept (
              let b = table_of t s.map in
              if is_open s.base && ltb_ℤ (pos 0) b.nb
              then (read_table t c s w (data_address s.base b.start) b.nb >>= λ r.
                  ok (r.0, r.1, r.2))
              else ok (s, w, pos 0))
      from t =
          let b = table_of t s.map in
          let addr = data_address s.base b.start in
          let (n, e) = IsWhole-size b (all t) in
          Returns-test (is_open s.base && ltb_ℤ (pos 0) b.nb)
            (λ asked.
              Returns-bind
                (subst
                  (λ z.
                    Returns (λ (r : BufferedSlave × W × ℤ × List ℕ). AllWhole r.0)
                      (read_table t c s w addr z))
                  (sym e)
                  (Returns-map (λ r safe. safe.whole)
                    (read_table-ReadSafe c client s all w addr n t)))
                λ r whole. Returns-ok whole)
            λ unasked. Returns-ok all

      updated : (t : Table) → Returns Kept (update_block_from_slave c s w t)
      updated discrete_input = from discrete_input
      updated coil = from coil
      updated input_register = from input_register
      updated holding_register = from holding_register

  -- One value goes by `one`, more by `many`.
  sent-Kept :
      (b : Block) (addr : ℤ) (one : ℤ → ℕ → Outcome (BufferedSlave × W × ℤ))
      (many : ℤ → List ℕ → ℤ → Outcome (BufferedSlave × W × ℤ))
      → IsWhole b
      → ((x : ℕ) → Returns Kept (one addr x))
      → ((xs : List ℕ) (n : ℕ) → n ≤ length xs → Returns Kept (many addr xs (pos n)))
      → Returns Kept (
          if is_open s.base && ltb_ℤ (pos 0) b.nb
          then (elim b.tab [ none ↦ fault | some xs ↦ ok xs ] >>= λ xs.
              if eqb_ℤ b.nb (pos 1) then (first xs >>= λ x. one addr x) else many addr xs b.nb)
          else ok (s, w, pos 0))
  sent-Kept b addr one many (inl e) h k =
      Returns-test (is_open s.base && ltb_ℤ (pos 0) b.nb) (λ asked. absurd (ground arith))
        λ unasked. Returns-ok all
  sent-Kept b addr one many (inr (xs, v)) h k =
      Returns-test (is_open s.base && ltb_ℤ (pos 0) b.nb)
        (λ asked. rw (v.held) (
          Returns-test (eqb_ℤ b.nb (pos 1))
            (λ single. Returns-bind (first-one xs (one_held single)) λ x _. h x)
            λ several.
              subst (λ z. Returns Kept (many addr xs z)) (sym v.sized)
                (k xs (length xs) (omega arith))))
        λ unasked. Returns-ok all
    where
      one_held : eqb_ℤ b.nb (pos 1) ≡ true → length xs ≡ 1
      one_held h = let e = v.sized in ground arith

  -- `updateSlaveFromBlock` of any table of a slave whose tables are whole returns, and leaves all
  -- tables whole.
  pub update_slave_from_block-AllWhole :
      (t : Table) → Returns Kept (update_slave_from_block c s w t)
  unfolding update_slave_from_block update_slave_coil_from_block
      update_slave_holding_register_from_block write_coil write_register
  update_slave_from_block-AllWhole discrete_input = Returns-ok all
  update_slave_from_block-AllWhole input_register = Returns-ok all
  update_slave_from_block-AllWhole coil =
      let b = s.map.bits in
      let addr = data_address s.base b.start in
      sent-Kept b addr (λ addr x. write_coil c s w addr (as_bool x)) (write_coils c s w) (all coil)
        (λ x.
          write_table-AllWhole c s all w addr ((if as_bool x then 1 else 0) ∷ []) 1 (omega arith)
            coil)
        λ xs n enough. write_table-AllWhole c s all w addr xs n enough coil
  update_slave_from_block-AllWhole holding_register =
      let b = s.map.registers in
      let addr = data_address s.base b.start in
      sent-Kept b addr (write_register c s w) (write_registers c s w) (all holding_register)
        (λ x. write_table-AllWhole c s all w addr (x ∷ []) 1 (omega arith) holding_register)
        λ xs n enough. write_table-AllWhole c s all w addr xs n enough holding_register

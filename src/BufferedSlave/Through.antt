-- ===== src/BufferedSlave/Through.antt =====
-- A buffered slave whose device is open keeps a copy of what passes through it.
use libmodbuspp.Base.{
  ℕ, ◌+◌, ◌-◌, ◌≤◌, ◌<◌, min, ◌≡◌, refl, sym, ap, ◌∙◌, arith, true, false, List, length, take, drop,
  splice, length-splice, ℤ, pos, ◌+ℤ◌, ltb_ℤ, Outcome, ok, ◌>>=◌,
}
use libmodbuspp.Slave
use libmodbuspp.Slave.{
  Slave, Client, Reply, minus_one, is_open, is_valid, pdu_address, data_address, access, no_reply,
}
use libmodbuspp.BufferedSlave.Block.{Block, read_block}
use libmodbuspp.BufferedSlave.Block.Valid.{Holds, with_elements, read_block-closed}
use libmodbuspp.BufferedSlave.Block.Remote.{read_block-open, take-drop-whole}
use libmodbuspp.BufferedSlave.Tables.{
  BufferedSlave, Table, discrete_input, coil, input_register, holding_register, table_of, put_table,
  read_coils, read_discrete_inputs, read_registers, read_input_registers,
}
use libmodbuspp.BufferedSlave.Access.{read_table}
use libmodbuspp.BufferedSlave.RoundTrip.{pdu_address-data_address}
use libmodbuspp.BufferedSlave.Safe.{is_open-is_valid}

-- The call of libmodbus that reads a table of the device.
abbrev pub device_read : {W : Type 0} → Table → Client W → W → ℤ → ℤ → W × Reply
device_read coil c w a n = c.read_bits w a n
device_read discrete_input c w a n = c.read_input_bits w a n
device_read holding_register c w a n = c.read_registers w a n
device_read input_register c w a n = c.read_input_registers w a n

pub access-selected :
    {W A : Type 0} (c : Client W) (s : Slave) (w w' : W) (failed : A) (call : W → W × A)
    → is_open s ≡ true
    → c.set_slave w s.id ≡ (w', pos 0)
    → access c s w failed call ≡ ok (call w')
unfolding access
access-selected c s w w' failed call opened selects = rw (is_open-is_valid s opened, selects) refl

-- A read of a whole table while the device is not open.
module _ {W : Type 0} (c : Client W) (s : BufferedSlave) (xs : List ℕ) (k n : ℕ)
    (inside : k < length xs) (closed : is_open s.base ≡ false) (w : W) where
  closed-at :
      (t : Table) (remote : W → ℤ → Outcome (W × Reply))
      → Holds (table_of t s.map) xs
      → let at = (table_of t s.map).start +ℤ pos k in
        let m = min n (length xs - k) in
        (read_block c.set_einval
            (table_of t s.map)
            (is_open s.base)
            remote
            w
            (pdu_address s.base (data_address s.base at))
            (pos n)
          ≡ ok (table_of t s.map, w, pos m, take m (drop k xs)))
  closed-at t remote v =
      rw (closed, pdu_address-data_address s.base ((table_of t s.map).start +ℤ pos k))
        (read_block-closed c.set_einval (table_of t s.map) xs v w remote k n inside)

  abbrev again : Table → Block × W × ℤ × List ℕ → Outcome (BufferedSlave × W × ℤ × List ℕ)
  again t r = ok (put_table t s r.0, r.1, r.2, r.3)

  read_table-closed :
      (t : Table)
      → Holds (table_of t s.map) xs
      → let at = (table_of t s.map).start +ℤ pos k in
        let m = min n (length xs - k) in
        (read_table t c s w (data_address s.base at) (pos n) ≡ ok (s, w, pos m, take m (drop k xs)))
  unfolding read_coils read_discrete_inputs read_registers read_input_registers
  read_table-closed coil v =
      ap (λ m. m >>= again coil)
        (closed-at coil
          (λ w n. Slave.read_coils c s.base w (data_address s.base (s.map.bits.start +ℤ pos k)) n)
          v)
  read_table-closed discrete_input v =
      ap (λ m. m >>= again discrete_input)
        (closed-at discrete_input
          (λ w n.
            Slave.read_discrete_inputs c s.base w
              (data_address s.base (s.map.input_bits.start +ℤ pos k)) n)
          v)
  read_table-closed holding_register v =
      ap (λ m. m >>= again holding_register)
        (closed-at holding_register
          (λ w n.
            Slave.read_registers c s.base w (data_address s.base (s.map.registers.start +ℤ pos k))
              n)
          v)
  read_table-closed input_register v =
      ap (λ m. m >>= again input_register)
        (closed-at input_register
          (λ w n.
            Slave.read_input_registers c s.base w
              (data_address s.base (s.map.input_registers.start +ℤ pos k)) n)
          v)

-- The table of the slave once it is changed.
cached-Holds :
    (t : Table) (s : BufferedSlave) (base : Slave) (xs ys : List ℕ) (k : ℕ)
    → Holds (table_of t s.map) xs
    → k + length ys ≤ length xs
    → let s' = record (put_table t s (with_elements (table_of t s.map) (splice xs k ys))) {
      base = base;
    } in
      Holds (table_of t s'.map) (splice xs k ys)
cached-Holds coil s base xs ys k v h = record {
  held = refl;
  sized = v.sized ∙ ap pos (sym (length-splice xs k ys h));
}
cached-Holds discrete_input s base xs ys k v h = record {
  held = refl;
  sized = v.sized ∙ ap pos (sym (length-splice xs k ys h));
}
cached-Holds holding_register s base xs ys k v h = record {
  held = refl;
  sized = v.sized ∙ ap pos (sym (length-splice xs k ys h));
}
cached-Holds input_register s base xs ys k v h = record {
  held = refl;
  sized = v.sized ∙ ap pos (sym (length-splice xs k ys h));
}

same_start :
    (t : Table) (s : BufferedSlave) (base : Slave) (ys : List ℕ)
    → let s' = record (put_table t s (with_elements (table_of t s.map) ys)) { base = base } in
      (table_of t s'.map).start ≡ (table_of t s.map).start
same_start coil s base ys = refl
same_start discrete_input s base ys = refl
same_start holding_register s base ys = refl
same_start input_register s base ys = refl

-- The device of the slave selects it, and gives the `m` values from `a` on.
pub record Answers {W : Type 0} (t : Table) (c : Client W) (s : Slave) (w : W) (a : ℤ) (m : ℕ)
    (w' : W) (r : Reply) : Type 0 where
  pub opened : is_open s ≡ true
  pub between : W
  pub selects : c.set_slave w s.id ≡ (between, pos 0)
  pub answers : device_read t c between a (pos m) ≡ (w', r)
  pub fine : ltb_ℤ r.rc (pos 0) ≡ false
  pub full : length r.stored ≡ m

module _ {W : Type 0} (c : Client W) (s : BufferedSlave) where
  -- The address of the PDU that the `k`-th element of a table has.
  abbrev pub element : Table → ℕ → ℤ
  element t k = (table_of t s.map).start +ℤ pos k

  -- The slave with these values in the table.
  abbrev pub cached : Table → List ℕ → ℕ → List ℕ → BufferedSlave
  cached t xs k ys = put_table t s (with_elements (table_of t s.map) (splice xs k ys))

  module _ (xs : List ℕ) (k n : ℕ) (inside : k < length xs) (some_asked : 0 < n) where
    -- The number of elements that there are of those asked for.
    abbrev pub count : ℕ
    count = min n (length xs - k)

    abbrev placed :
        Table → Outcome (Block × W × ℤ × List ℕ) → Outcome (BufferedSlave × W × ℤ × List ℕ)
    placed t m = m >>= λ r. ok (put_table t s r.0, r.1, r.2, r.3)

    block-caches :
        (t : Table) (w w' : W) (r : Reply) (remote : W → ℤ → Outcome (W × Reply))
        → Holds (table_of t s.map) xs
        → Answers t c s.base w (element t k) count w' r
        → remote w (pos count) ≡ ok (w', r)
        → placed t (
            read_block c.set_einval
              (table_of t s.map)
              (is_open s.base)
              remote
              w
              (pdu_address s.base (data_address s.base (element t k)))
              (pos n))
          ≡ ok (cached t xs k r.stored, w', pos count, r.stored)
    block-caches t w w' r remote v a e =
        rw (a.opened, pdu_address-data_address s.base (element t k))
          (ap (placed t) (
            read_block-open c.set_einval (table_of t s.map) xs v w k n inside some_asked remote w' r
              e (a.fine) (a.full)))

    asked :
        (call : W → W × Reply) (t : Table) (w w' : W) (r : Reply)
        (a : Answers t c s.base w (element t k) count w' r)
        → call (a.between) ≡ (w', r)
        → access c s.base w (no_reply c s.base) call ≡ ok (w', r)
    asked call t w w' r a e =
        access-selected c s.base w a.between (no_reply c s.base) call (a.opened) (a.selects)
        ∙ ap ok e

    read_table-stores :
        (t : Table) (w w' : W) (r : Reply)
        → Holds (table_of t s.map) xs
        → Answers t c s.base w (element t k) count w' r
        → read_table t c s w (data_address s.base (element t k)) (pos n)
          ≡ ok (cached t xs k r.stored, w', pos count, r.stored)
    unfolding read_coils read_discrete_inputs read_registers read_input_registers Slave.read_coils
        Slave.read_discrete_inputs Slave.read_registers Slave.read_input_registers
    read_table-stores coil w w' r v a =
        block-caches coil w w' r
          (λ w n. Slave.read_coils c s.base w (data_address s.base (element coil k)) n) v a
          (rw (pdu_address-data_address s.base (element coil k))
            (asked _ coil w w' r a (a.answers)))
    read_table-stores discrete_input w w' r v a =
        block-caches discrete_input w w' r
          (λ w n.
            Slave.read_discrete_inputs c s.base w (data_address s.base (element discrete_input k))
              n)
          v a
          (rw (pdu_address-data_address s.base (element discrete_input k))
            (asked _ discrete_input w w' r a (a.answers)))
    read_table-stores holding_register w w' r v a =
        block-caches holding_register w w' r
          (λ w n.
            Slave.read_registers c s.base w (data_address s.base (element holding_register k)) n)
          v a
          (rw (pdu_address-data_address s.base (element holding_register k))
            (asked _ holding_register w w' r a (a.answers)))
    read_table-stores input_register w w' r v a =
        block-caches input_register w w' r
          (λ w n.
            Slave.read_input_registers c s.base w (data_address s.base (element input_register k))
              n)
          v a
          (rw (pdu_address-data_address s.base (element input_register k))
            (asked _ input_register w w' r a (a.answers)))

    -- A read of a whole table while the device is open and answers: the values of the device are
    -- returned, and stored in the table. Once the device is closed, a read at that place returns
    -- them again, and asks nobody: `base` is the state of the slave then.
    pub read_table-caches :
        (t : Table) (w w' : W) (r : Reply) (base : Slave) (u : W)
        → Holds (table_of t s.map) xs
        → Answers t c s.base w (element t k) count w' r
        → is_open base ≡ false
        → let s' = cached t xs k r.stored in
          (read_table t c s w (data_address s.base (element t k)) (pos n)
            ≡ ok (s', w', pos count, r.stored))
          × (let s'' = record s' { base = base } in
              read_table t c s'' u (data_address base (element t k)) (pos n)
              ≡ ok (s'', u, pos count, r.stored))
    read_table-caches t w w' r base u v a closed = (
      read_table-stores t w w' r v a,
      let ys = r.stored in
          let s'' = record (cached t xs k ys) { base = base } in
          let zs = splice xs k ys in
          let fits : k + length ys ≤ length xs = omega (arith, a.full, inside) in
          let size = length-splice xs k ys fits in
          ap (λ z. read_table t c s'' u (data_address base (z +ℤ pos k)) (pos n))
            (sym (same_start t s base zs))
          ∙ read_table-closed c s'' zs k n (omega (arith, size, inside)) closed u t
              (cached-Holds t s base xs ys k v fits)
          ∙ ap (λ l. ok (s'', u, pos (min n (l - k)), take (min n (l - k)) (drop k zs))) size
          ∙ ap (λ l. ok (s'', u, pos count, l))
              (take-drop-whole xs ys k count (a.full) (omega (arith, inside))),
    )

-- ===== src/BufferedSlave/Reach.antt =====
-- What a `BufferedSlave` is after any calls: its tables are whole.
use libmodbuspp.Base.{
  ℕ, ◌≤◌, ◌≡◌, refl, sym, ◌∙◌, subst, true, ◌⊎◌, inl, inr, List, length, ℤ, pos, leb_ℤ, Option,
  Outcome, ok, ◌>>=◌, Returns, Ensures, Ensures-ok, Ensures-bind, ok-injective,
}
use libmodbuspp.Slave.{Client, DeviceView}
use libmodbuspp.BufferedSlave.Block.{Block}
use libmodbuspp.BufferedSlave.Block.Whole.{IsWhole, InPlace, InPlace-IsWhole}
use libmodbuspp.BufferedSlave.Allocate.{Allocator, set_bit_table, set_register_table}
use libmodbuspp.BufferedSlave.Allocate.Laws.{IsMemory}
use libmodbuspp.BufferedSlave.Allocate.Whole.{set_table-Sized}
use libmodbuspp.BufferedSlave.Tables.{
  BufferedSlave, Table, discrete_input, coil, input_register, holding_register, table_of, put_table,
  create, set_block, set_coil_block, set_discrete_input_block, set_holding_register_block,
  set_input_register_block,
}
use libmodbuspp.BufferedSlave.Device.{
  write_read_registers, update_block_from_slave, update_slave_from_block,
}
use libmodbuspp.BufferedSlave.Access.{read_table, write_table}
use libmodbuspp.BufferedSlave.Safe.{
  IsClient, AllWhole, ReadSafe, put_table-AllWhole, read_table-ReadSafe, write_table-AllWhole,
}
use libmodbuspp.BufferedSlave.SafeExchange.{write_read_registers-ReadSafe}
use libmodbuspp.BufferedSlave.SafeUpdate.{
  update_block_from_slave-AllWhole, update_slave_from_block-AllWhole,
}

-- The slaves that are reached from a slave by calls that return, with counts that are not negative:
-- by accesses for which the user's arrays are long enough, by resizes that the allocator does not
-- refuse, which report no error or leave the tables alone, by replies of libmodbus that write into
-- the memory of the tables, and by any other calls that leave the tables alone.
pub data Reach {W : Type 0} (al : Allocator) (c : Client W) (start : BufferedSlave)
    : BufferedSlave → Type 0 where
  here : Reach al c start start
  reads :
      (t : Table) (s s' : BufferedSlave) (w w' : W) (addr rc : ℤ) (n : ℕ) (dest : List ℕ)
      → Reach al c start s
      → read_table t c s w addr (pos n) ≡ ok (s', w', rc, dest)
      → Reach al c start s'
  writes :
      (t : Table) (s s' : BufferedSlave) (w w' : W) (addr rc : ℤ) (n : ℕ) (src : List ℕ)
      → Reach al c start s
      → n ≤ length src
      → write_table t c s w addr src (pos n) ≡ ok (s', w', rc)
      → Reach al c start s'
  exchanges :
      (s s' : BufferedSlave) (w w' : W) (write_addr read_addr rc : ℤ) (m n : ℕ) (src dest : List ℕ)
      → Reach al c start s
      → m ≤ length src
      → write_read_registers c s w write_addr src (pos m) read_addr (pos n) ≡ ok (s', w', rc, dest)
      → Reach al c start s'
  updates_block :
      (t : Table) (s s' : BufferedSlave) (w w' : W) (rc : ℤ)
      → Reach al c start s
      → update_block_from_slave c s w t ≡ ok (s', w', rc)
      → Reach al c start s'
  updates_slave :
      (t : Table) (s s' : BufferedSlave) (w w' : W) (rc : ℤ)
      → Reach al c start s
      → update_slave_from_block c s w t ≡ ok (s', w', rc)
      → Reach al c start s'
  sizes :
      (t : Table) (s s' : BufferedSlave) (addr rc : ℤ) (n : ℕ)
      → Reach al c start s
      → set_block al s t (pos n) addr ≡ ok (s', rc)
      → (leb_ℤ (pos 0) rc ≡ true) ⊎ (s'.map ≡ s.map)
      → Reach al c start s'
  replies :
      (s s' : BufferedSlave)
      → Reach al c start s
      → ((t : Table) → InPlace (table_of t s.map) (table_of t s'.map))
      → Reach al c start s'
  others : (s s' : BufferedSlave) → Reach al c start s → s'.map ≡ s.map → Reach al c start s'

shown_at : {A : Type 0} {P : A → Type 0} {m : Outcome A} {a : A} → Returns P m → m ≡ ok a → P a
shown_at {P} r e = subst P (ok-injective (sym (r.returned) ∙ e)) r.shown

-- The constructor's tables have no elements.
pub create-AllWhole : (id : ℤ) (d : Option DeviceView) → AllWhole (create id d)
unfolding create
create-AllWhole id d discrete_input = inl refl
create-AllWhole id d coil = inl refl
create-AllWhole id d input_register = inl refl
create-AllWhole id d holding_register = inl refl

same_tables-AllWhole : (s s' : BufferedSlave) → s'.map ≡ s.map → AllWhole s → AllWhole s'
same_tables-AllWhole s s' same all t = subst (λ m. IsWhole (table_of t m)) (sym same) (all t)

-- What a call leaves.
abbrev pub Leaves : {W : Type 0} → BufferedSlave × W × ℤ → Type 0
Leaves r = AllWhole r.0

module _ (al : Allocator) (memory : IsMemory al) where
  -- A size that is set without an error leaves all tables whole.
  abbrev SizedAll : BufferedSlave × ℤ → Type 0
  SizedAll r = leb_ℤ (pos 0) r.1 ≡ true → AllWhole r.0

  placed-SizedAll :
      (t : Table) (s : BufferedSlave) (m : Outcome (Block × ℤ))
      → AllWhole s
      → Ensures (λ r. leb_ℤ (pos 0) r.1 ≡ true → IsWhole r.0) m
      → Ensures SizedAll (m >>= λ r. ok (put_table t s r.0, r.1))
  placed-SizedAll t s m all sized =
      Ensures-bind m sized λ r h. Ensures-ok λ fine. put_table-AllWhole t s r.0 all (h fine)

  set_block-SizedAll :
      (t : Table) (s : BufferedSlave) (n : ℕ) (addr : ℤ)
      → AllWhole s
      → Ensures SizedAll (set_block al s t (pos n) addr)
  unfolding set_block set_coil_block set_discrete_input_block set_holding_register_block
      set_input_register_block set_bit_table set_register_table
  set_block-SizedAll coil s n addr all =
      placed-SizedAll coil s _ all (set_table-Sized al memory n _ _ s.base s.map.bits _ (all coil))
  set_block-SizedAll discrete_input s n addr all =
      placed-SizedAll discrete_input s _ all
        (set_table-Sized al memory n _ _ s.base s.map.input_bits _ (all discrete_input))
  set_block-SizedAll holding_register s n addr all =
      placed-SizedAll holding_register s _ all
        (set_table-Sized al memory n _ _ s.base s.map.registers _ (all holding_register))
  set_block-SizedAll input_register s n addr all =
      placed-SizedAll input_register s _ all
        (set_table-Sized al memory n _ _ s.base s.map.input_registers _ (all input_register))

  -- None of these calls breaks a table that is whole.
  pub Reach-keeps :
      {W : Type 0} (c : Client W) (start s : BufferedSlave)
      → IsClient c
      → AllWhole start
      → Reach al c start s
      → AllWhole s
  Reach-keeps c start _ client all here = all
  Reach-keeps c start _ client all (reads t s s' w w' addr rc n dest r e) =
      (shown_at (read_table-ReadSafe c client s (Reach-keeps c start s client all r) w addr n t)
        e).whole
  Reach-keeps c start _ client all (writes t s s' w w' addr rc n src r enough e) =
      shown_at (write_table-AllWhole c s (Reach-keeps c start s client all r) w addr src n enough t)
        e
  Reach-keeps c start _ client all (exchanges s s' w w' a b rc m n src dest r enough e) =
      (shown_at
        (write_read_registers-ReadSafe c client s (Reach-keeps c start s client all r) w src a b m n
          enough)
        e).whole
  Reach-keeps c start _ client all (updates_block t s s' w w' rc r e) =
      shown_at
        (update_block_from_slave-AllWhole c s (Reach-keeps c start s client all r) w t client) e
  Reach-keeps c start _ client all (updates_slave t s s' w w' rc r e) =
      shown_at (update_slave_from_block-AllWhole c s (Reach-keeps c start s client all r) w t) e
  Reach-keeps c start _ client all (sizes t s s' addr rc n r e (inl fine)) =
      (set_block-SizedAll t s n addr (Reach-keeps c start s client all r)).holds (s', rc) e fine
  Reach-keeps c start _ client all (sizes t s s' addr rc n r e (inr same)) =
      same_tables-AllWhole s s' same (Reach-keeps c start s client all r)
  Reach-keeps c start _ client all (replies s s' r kept) = λ t.
      InPlace-IsWhole (table_of t s.map) (table_of t s'.map) (kept t)
        (Reach-keeps c start s client all r t)
  Reach-keeps c start _ client all (others s s' r same) =
      same_tables-AllWhole s s' same (Reach-keeps c start s client all r)

  -- Every table of a slave that is reached from its construction by calls that return has the
  -- memory that its size says, or no element. The counts of the calls are not negative, no resize
  -- was refused by the allocator, the allocator leaves as much memory as it is asked for, and the
  -- device stores at most as many values as it is asked for.
  pub Reach-AllWhole :
      {W : Type 0} (c : Client W) (id : ℤ) (d : Option DeviceView) (s : BufferedSlave)
      → IsClient c
      → Reach al c (create id d) s
      → AllWhole s
  Reach-AllWhole c id d s client r = Reach-keeps c (create id d) s client (create-AllWhole id d) r

  -- On every slave that is reached from its construction by such calls, none of them a resize that
  -- the allocator refused, and whether or not its device is open, every read and write of a table,
  -- every combined write and read, and every exchange of a whole table with the device returns, for
  -- counts that are not negative: it throws nothing and touches no memory outside the tables and
  -- the user's arrays, if the source has as many values as are to be written. A read stores no more
  -- in `dest` than is asked for, and as many values as its result says. All tables stay whole. The
  -- allocator leaves as much memory as it is asked for, and the device stores at most as many
  -- values as it is asked for. A `memcpy` of a table to itself counts as
  -- leaving it as it is.
  pub Reach-Returns :
      {W : Type 0} (c : Client W) (id : ℤ) (d : Option DeviceView) (s : BufferedSlave) (w : W)
      (t : Table) (addr other : ℤ) (src : List ℕ) (m n : ℕ)
      → IsClient c
      → Reach al c (create id d) s
      → m ≤ length src
      → Returns (ReadSafe n) (read_table t c s w addr (pos n))
        × Returns Leaves (write_table t c s w addr src (pos m))
        × Returns (ReadSafe n) (write_read_registers c s w addr src (pos m) other (pos n))
        × Returns Leaves (update_block_from_slave c s w t)
        × Returns Leaves (update_slave_from_block c s w t)
  Reach-Returns c id d s w t addr other src m n client r enough =
      let all = Reach-AllWhole c id d s client r in
      (
        read_table-ReadSafe c client s all w addr n t,
        write_table-AllWhole c s all w addr src m enough t,
        write_read_registers-ReadSafe c client s all w src addr other m n enough,
        update_block_from_slave-AllWhole c s all w t client,
        update_slave_from_block-AllWhole c s all w t,
      )

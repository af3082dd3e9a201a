-- ===== src/BufferedSlave/Safe.antt =====
-- The accesses of a slave whose tables are whole return, and leave its tables whole.
use libmodbuspp.Base.{
  ℕ, ◌≤◌, ◌≡◌, arith, Bool, true, false, ◌&&◌, ◌⊎◌, Option, none, some, List, [], length, ℤ, pos,
  ltb_ℤ, eqb_ℤ, Outcome, ok, ◌>>=◌, Returns, Returns-ok, Returns-bind, Returns-test,
}
use libmodbuspp.Slave
use libmodbuspp.Slave.{
  Slave, Client, Reply, DeviceView, minus_one, is_open, is_valid, pdu_address, access, no_reply,
}
use libmodbuspp.BufferedSlave.Block.{Block, read_block}
use libmodbuspp.BufferedSlave.Block.Whole.{IsWhole}
use libmodbuspp.BufferedSlave.Block.Safe.{ReadKeeps, Fits, IsRemote, read_block-ReadKeeps}
use libmodbuspp.BufferedSlave.Block.SafeWrite.{
  WriteKeeps, IsCall, write_block-WriteKeeps, store_block-WriteKeeps,
}
use libmodbuspp.BufferedSlave.Tables.{
  BufferedSlave, Table, discrete_input, coil, input_register, holding_register, table_of, put_table,
  as_bool, read_coils, read_discrete_inputs, read_registers, read_input_registers, write_coils,
  write_discrete_inputs, write_registers, write_input_registers,
}
use libmodbuspp.BufferedSlave.Access.{read_table, write_table}
use Prim.{tt}

-- The reply says no more values than there was room for, and stores no more.
abbrev pub FitsAll : {W : Type 0} → ℕ → W × Reply → Type 0
FitsAll m r = Fits m r × ((ltb_ℤ r.1.rc (pos 0) ≡ true) ⊎ ((k : ℕ) × (r.1.rc ≡ pos k) × (k ≤ m)))

-- libmodbus stores at most as many values as it is asked for, and says at most so many.
pub record IsClient {W : Type 0} (c : Client W) : Type 0 where
  pub bits_fit : (w : W) (a : ℤ) (m : ℕ) → Fits m (c.read_bits w a (pos m))
  pub input_bits_fit : (w : W) (a : ℤ) (m : ℕ) → Fits m (c.read_input_bits w a (pos m))
  pub registers_fit : (w : W) (a : ℤ) (m : ℕ) → Fits m (c.read_registers w a (pos m))
  pub input_registers_fit : (w : W) (a : ℤ) (m : ℕ) → Fits m (c.read_input_registers w a (pos m))
  pub exchanged_fit :
      (w : W) (a b : ℤ) (k : ℤ) (xs : List ℕ) (m : ℕ)
      → FitsAll m (c.write_and_read_registers w a k xs b (pos m))

pub is_open-is_valid : (s : Slave) → is_open s ≡ true → is_valid s ≡ true
unfolding is_open
is_open-is_valid s h = open_valid s.dev (is_valid s) h
  where
    open_valid :
        (d : Option DeviceView) (valid : Bool)
        → elim d [ none ↦ false | some d ↦ valid && d.opened ] ≡ true
        → valid ≡ true
    open_valid none valid h = absurd (ground arith)
    open_valid (some d) valid h = ground arith

module _ {W : Type 0} (c : Client W) (s : Slave) where
  pub access-Returns :
      {A : Type 0} {P : W × A → Type 0} (w : W) (failed : A) (call : W → W × A)
      → is_valid s ≡ true
      → ((w : W) → P (w, failed))
      → ((w : W) → P (call w))
      → Returns P (access c s w failed call)
  unfolding access
  access-Returns w failed call valid f g = rw valid (
      Returns-test (eqb_ℤ ((c.set_slave w s.id).1) (pos 0))
        (λ selected. Returns-ok (g ((c.set_slave w s.id).0)))
        λ refused. Returns-ok (f ((c.set_slave w s.id).0)))

  pub access-IsRemote :
      (call : W → ℤ → W × Reply)
      → is_open s ≡ true
      → ((w : W) (m : ℕ) → Fits m (call w (pos m)))
      → IsRemote (λ w n. access c s w (no_reply c s) (λ w. call w n))
  access-IsRemote call opened fit = λ w m.
      access-Returns w (no_reply c s) (λ w. call w (pos m)) (is_open-is_valid s opened)
        (λ _. omega arith) λ w. fit w m

  pub access-IsCall :
      {A : Type 0} (call : A → W → W × ℤ) (w : W)
      → is_open s ≡ true
      → IsCall (λ a. access c s w minus_one (call a))
  access-IsCall call w opened a =
      access-Returns w minus_one (call a) (is_open-is_valid s opened) (λ _. tt) λ _. tt

-- Every table is whole.
abbrev pub AllWhole : BufferedSlave → Type 0
AllWhole s = (t : Table) → IsWhole (table_of t s.map)

pub put_table-AllWhole :
    (t : Table) (s : BufferedSlave) (b : Block)
    → AllWhole s
    → IsWhole b
    → AllWhole (put_table t s b)
put_table-AllWhole discrete_input s b h k discrete_input = k
put_table-AllWhole discrete_input s b h k coil = h coil
put_table-AllWhole discrete_input s b h k input_register = h input_register
put_table-AllWhole discrete_input s b h k holding_register = h holding_register
put_table-AllWhole coil s b h k discrete_input = h discrete_input
put_table-AllWhole coil s b h k coil = k
put_table-AllWhole coil s b h k input_register = h input_register
put_table-AllWhole coil s b h k holding_register = h holding_register
put_table-AllWhole input_register s b h k discrete_input = h discrete_input
put_table-AllWhole input_register s b h k coil = h coil
put_table-AllWhole input_register s b h k input_register = k
put_table-AllWhole input_register s b h k holding_register = h holding_register
put_table-AllWhole holding_register s b h k discrete_input = h discrete_input
put_table-AllWhole holding_register s b h k coil = h coil
put_table-AllWhole holding_register s b h k input_register = h input_register
put_table-AllWhole holding_register s b h k holding_register = k

-- What a read leaves: whole tables, and in `dest` at most `n` values, as many as the result says
-- where it is not negative.
pub record ReadSafe {W : Type 0} (n : ℕ) (r : BufferedSlave × W × ℤ × List ℕ) : Type 0 where
  pub whole : AllWhole r.0
  pub fits : length (r.3) ≤ n
  pub told : (r.2 ≡ pos (length (r.3))) ⊎ ((ltb_ℤ r.2 (pos 0) ≡ true) × (r.3 ≡ []))

module _ {W : Type 0} (c : Client W) (client : IsClient c) (s : BufferedSlave) (all : AllWhole s)
    (w : W) (addr : ℤ) (n : ℕ) where
  placed-ReadSafe :
      (t : Table) {m : Outcome (Block × W × ℤ × List ℕ)}
      → Returns (ReadKeeps (table_of t s.map) n) m
      → Returns (ReadSafe n) (m >>= λ r. ok (put_table t s r.0, r.1, r.2, r.3))
  placed-ReadSafe t safe = Returns-bind safe λ r kept. Returns-ok record {
    whole = put_table-AllWhole t s r.0 all kept.keeps.whole;
    fits = kept.fits;
    told = kept.told;
  }

  block-ReadSafe :
      (t : Table) (remote : W → ℤ → Outcome (W × Reply))
      → (is_open s.base ≡ true → IsRemote remote)
      → Returns (ReadSafe n) (
          read_block c.set_einval
            (table_of t s.map)
            (is_open s.base)
            remote
            w
            (pdu_address s.base addr)
            (pos n)
          >>= λ r. ok (put_table t s r.0, r.1, r.2, r.3))
  block-ReadSafe t remote asked = placed-ReadSafe t (
      read_block-ReadKeeps c.set_einval (table_of t s.map) (all t) (is_open s.base) w
        (pdu_address s.base addr) n remote asked)

  -- A read of any table of a slave whose tables are whole returns, whether or not its device is
  -- open. It touches no memory outside the tables, stores no more in `dest` than is asked for, as
  -- many values as its result says, and leaves all tables whole.
  pub read_table-ReadSafe : (t : Table) → Returns (ReadSafe n) (read_table t c s w addr (pos n))
  unfolding read_coils read_discrete_inputs read_registers read_input_registers Slave.read_coils
      Slave.read_discrete_inputs Slave.read_registers Slave.read_input_registers
  read_table-ReadSafe coil =
      block-ReadSafe coil (λ w n. Slave.read_coils c s.base w addr n)
        λ o.
          access-IsRemote c s.base (λ w m. c.read_bits w (pdu_address s.base addr) m) o
            λ w. client.bits_fit w (pdu_address s.base addr)
  read_table-ReadSafe discrete_input =
      block-ReadSafe discrete_input (λ w n. Slave.read_discrete_inputs c s.base w addr n)
        λ o.
          access-IsRemote c s.base (λ w m. c.read_input_bits w (pdu_address s.base addr) m) o
            λ w. client.input_bits_fit w (pdu_address s.base addr)
  read_table-ReadSafe holding_register =
      block-ReadSafe holding_register (λ w n. Slave.read_registers c s.base w addr n)
        λ o.
          access-IsRemote c s.base (λ w m. c.read_registers w (pdu_address s.base addr) m) o
            λ w. client.registers_fit w (pdu_address s.base addr)
  read_table-ReadSafe input_register =
      block-ReadSafe input_register (λ w n. Slave.read_input_registers c s.base w addr n)
        λ o.
          access-IsRemote c s.base (λ w m. c.read_input_registers w (pdu_address s.base addr) m) o
            λ w. client.input_registers_fit w (pdu_address s.base addr)

module _ {W : Type 0} (c : Client W) (s : BufferedSlave) (all : AllWhole s) (w : W) (addr : ℤ)
    (src : List ℕ) (n : ℕ) (enough : n ≤ length src) where
  placed-AllWhole :
      (t : Table) {m : Outcome (Block × W × ℤ)}
      → Returns (WriteKeeps (table_of t s.map)) m
      → Returns
          (λ (r : BufferedSlave × W × ℤ). AllWhole r.0)
          (m >>= λ r. ok (put_table t s r.0, r.1, r.2))
  placed-AllWhole t safe =
      Returns-bind safe λ r kept. Returns-ok (put_table-AllWhole t s r.0 all kept.whole)

  -- A write of `n` values to any table of a slave whose tables are whole, from a source that has
  -- so many, returns, whether or not its device is open. It touches no memory outside the tables
  -- and the source, and leaves all tables whole.
  pub write_table-AllWhole :
      (t : Table)
      → Returns (λ (r : BufferedSlave × W × ℤ). AllWhole r.0) (write_table t c s w addr src (pos n))
  unfolding write_coils write_discrete_inputs write_registers write_input_registers
      Slave.write_coils Slave.write_coil Slave.write_registers Slave.write_register
  write_table-AllWhole coil = placed-AllWhole coil (
      write_block-WriteKeeps c.set_einval s.map.bits (all coil) w (pdu_address s.base addr) src n
        enough (is_open s.base) (λ w x. Slave.write_coil c s.base w addr (as_bool x))
        (λ w xs n. Slave.write_coils c s.base w addr xs n) (λ o w. access-IsCall c s.base _ w o)
        λ o w xs. access-IsCall c s.base _ w o)
  write_table-AllWhole discrete_input = placed-AllWhole discrete_input (
      store_block-WriteKeeps c.set_einval s.map.input_bits (all discrete_input) w
        (pdu_address s.base addr) src n enough)
  write_table-AllWhole holding_register = placed-AllWhole holding_register (
      write_block-WriteKeeps c.set_einval s.map.registers (all holding_register) w
        (pdu_address s.base addr) src n enough (is_open s.base)
        (λ w x. Slave.write_register c s.base w addr x)
        (λ w xs n. Slave.write_registers c s.base w addr xs n) (λ o w. access-IsCall c s.base _ w o)
        λ o w xs. access-IsCall c s.base _ w o)
  write_table-AllWhole input_register = placed-AllWhole input_register (
      store_block-WriteKeeps c.set_einval s.map.input_registers (all input_register) w
        (pdu_address s.base addr) src n enough)

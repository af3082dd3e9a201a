-- ===== src/BufferedSlave/Routing.antt =====
-- `readFromDevice` and `writeToDevice` of src/bufferedslave.cpp: a request that reached the server
-- is passed on to the device behind the slave.
pub mod Laws
pub mod Base
pub mod Safe
pub mod SafeWrite
use libmodbuspp.Base.{
  ℕ, Bool, true, false, not, Option, none, some, List, [], ◌∷◌, length, resize, ◌==◌, if◌then◌else◌,
  ℤ, pos, ◌-ℤ◌, ◌+ℤ◌, ltb_ℤ, eqb_ℤ, min_ℤ, max_ℤ, to_size, Outcome, ok, thrown, fault, ◌>>=◌,
  length_error, deref, get_elem?,
}
use libmodbuspp.Message.{Message, function, starting_address, quantity}
use libmodbuspp.Slave
use libmodbuspp.Slave.{Slave, Client, Reply, minus_one, is_open}
use libmodbuspp.BufferedSlave.Block.{Block, clipped, copy_out, copy_in}
use libmodbuspp.BufferedSlave.Tables.{
  Table, coil, discrete_input, input_register, holding_register, BufferedSlave, table_of, put_table,
  as_bool,
}
use libmodbuspp.BufferedSlave.Device.{stored_report}

-- `start` brought into the table, as an offset from its first element.
abbrev pub routed_offset : Block → ℤ → ℤ
routed_offset b start = min_ℤ (max_ℤ start b.start) (b.start +ℤ b.nb -ℤ pos 1) -ℤ b.start

-- `start + pduAddressing() ? 0 : 1`, which C++ reads as `(start + pduAddressing()) ? 0 : 1`.
unfoldable pub routed_address : Bool → ℤ → ℤ
routed_address pdu start =
    if eqb_ℤ (start +ℤ (if pdu then pos 1 else pos 0)) (pos 0) then pos 1 else pos 0

module _ {W : Type 0} (c : Client W) (s : BufferedSlave) (w : W) where
  -- One table from the device: `dest` is the table, from the offset on.
  unfoldable pub route_read :
      Table → (W → ℤ → ℤ → Outcome (W × Reply)) → ℕ → ℕ → Outcome (BufferedSlave × W × ℤ)
  route_read t remote start nb = do
    let b = table_of t s.map
    let offset = routed_offset b (pos start)
    let addr = routed_address s.base.pdu_addressing (b.start +ℤ offset)
    (w', r) ← remote w addr (clipped b offset (pos nb))
    tab ← copy_in b.tab offset r.stored
    ok (put_table t s (record b { tab = tab }), w', r.rc)

  -- The report of the slave. On an error the buffer is resized to the error's value.
  unfoldable pub route_report : Outcome (BufferedSlave × W × ℤ)
  route_report = do
    (w', r) ← Slave.report_slave_id c s.base w c.max_pdu_length
    ys ← stored_report c s w r.stored
    if ltb_ℤ r.rc (pos 0) then thrown length_error else ok (record s { id_report = ys }, w', r.rc)

  unfoldable pub read_from_device : Option Message → Outcome (BufferedSlave × W × ℤ)
  read_from_device none = ok (s, c.set_einval w, minus_one)
  read_from_device (some req) =
      let routed : Outcome (BufferedSlave × W × ℤ) =
        (starting_address req >>= λ start. quantity req >>= λ nb. function req >>= λ f.
        if f == 0x01
        then route_read coil (Slave.read_coils c s.base) start nb
        else (if f == 0x02
            then route_read discrete_input (Slave.read_discrete_inputs c s.base) start nb
            else (if f == 0x03
                then route_read holding_register (Slave.read_registers c s.base) start nb
                else (if f == 0x04
                    then route_read input_register (Slave.read_input_registers c s.base) start nb
                    else (if f == 0x11 then route_report else ok (s, w, pos 0)))))) in
      if is_open s.base then routed else ok (s, w, pos 0)

  -- `tab[offset]`
  abbrev element : Block → ℤ → Outcome ℕ
  element b offset = elim b.tab [ none ↦ fault | some xs ↦ deref (get_elem? xs (to_size offset)) ]

  unfoldable pub route_write_one :
      Block → (W → ℤ → ℕ → Outcome (W × ℤ)) → ℕ → Outcome (BufferedSlave × W × ℤ)
  route_write_one b remote start = do
    let offset = routed_offset b (pos start)
    let addr = routed_address s.base.pdu_addressing (b.start +ℤ offset)
    x ← element b offset
    (w', rc) ← remote w addr x
    ok (s, w', rc)

  unfoldable pub route_write_many :
      Block → (W → ℤ → List ℕ → ℤ → Outcome (W × ℤ)) → ℕ → ℕ → Outcome (BufferedSlave × W × ℤ)
  route_write_many b remote start nb = do
    let offset = routed_offset b (pos start)
    let addr = routed_address s.base.pdu_addressing (b.start +ℤ offset)
    xs ← copy_out b.tab offset (clipped b offset (pos nb))
    (w', rc) ← remote w addr xs (clipped b offset (pos nb))
    ok (s, w', rc)

  unfoldable pub write_to_device : Option Message → Outcome (BufferedSlave × W × ℤ)
  write_to_device none = ok (s, c.set_einval w, minus_one)
  write_to_device (some req) =
      let routed : Outcome (BufferedSlave × W × ℤ) =
        (starting_address req >>= λ start. quantity req >>= λ nb. function req >>= λ f.
        if f == 0x05
        then route_write_one s.map.bits (λ w addr x. Slave.write_coil c s.base w addr (as_bool x))
            start
        else (if f == 0x0F
            then route_write_many s.map.bits (Slave.write_coils c s.base) start nb
            else (if f == 0x06
                then route_write_one s.map.registers (Slave.write_register c s.base) start
                else (if f == 0x10
                    then route_write_many s.map.registers (Slave.write_registers c s.base) start nb
                    else ok (s, w, pos 0))))) in
      if is_open s.base then routed else ok (s, w, pos 0)

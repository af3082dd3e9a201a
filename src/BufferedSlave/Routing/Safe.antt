-- ===== src/BufferedSlave/Routing/Safe.antt =====
-- Requests that `readFromDevice` of src/bufferedslave.cpp passes on, and the memory of the tables.
use libmodbuspp.Base.{
  ℕ, ◌+◌, ◌-◌, ◌≤◌, ◌<◌, min, ◌≡◌, refl, ap, ◌∙◌, arith, true, List, [], ◌∷◌, length, some, ℤ, pos,
  negsuc, pos_part, ◌+ℤ◌, ◌-ℤ◌, Outcome, ok, fault, Returns, Returns-ok, Returns-bind,
}
use libmodbuspp.Message.{Message, function, starting_address, quantity}
use libmodbuspp.Slave
use libmodbuspp.Slave.{Client, Reply, is_open, pdu_address}
use libmodbuspp.BufferedSlave.Block.{Block, clipped, copy_in}
use libmodbuspp.BufferedSlave.Block.Valid.{Holds, clipped-at, with_elements}
use libmodbuspp.BufferedSlave.Block.Whole.{with_elements-Keeps}
use libmodbuspp.BufferedSlave.Block.Safe.{IsRemote, stored-held}
use libmodbuspp.BufferedSlave.Tables.{
  BufferedSlave, Table, coil, discrete_input, holding_register, input_register, table_of,
  empty_block,
}
use libmodbuspp.BufferedSlave.Safe.{IsClient, AllWhole, access-IsRemote, put_table-AllWhole}
use libmodbuspp.BufferedSlave.Routing.{routed_offset, routed_address, route_read, read_from_device}

-- Where a request for `start` goes in a table that has an element.
abbrev pub index : Block → ℕ → ℕ
index b start = pos_part (routed_offset b (pos start))

pub routed_offset-index :
    (b : Block) (last start : ℕ)
    → b.nb ≡ pos (last + 1)
    → (routed_offset b (pos start) ≡ pos (index b start)) × (index b start ≤ last)
unfolding ◌+ℤ◌ ◌-ℤ◌
routed_offset-index b last start e = (ground arith, ground arith)

-- The code of the function that reads a table.
abbrev pub read_function : Table → ℕ
read_function coil = 0x01
read_function discrete_input = 0x02
read_function holding_register = 0x03
read_function input_register = 0x04

abbrev pub LeavesWhole : {W : Type 0} → BufferedSlave × W × ℤ → Type 0
LeavesWhole r = AllWhole r.0

module _ {W : Type 0} (c : Client W) (s : BufferedSlave) (all : AllWhole s) (w : W) where
  route_read-Returns :
      (t : Table) (remote : W → ℤ → ℤ → Outcome (W × Reply)) (xs : List ℕ) (start nb : ℕ)
      → Holds (table_of t s.map) xs
      → 0 < length xs
      → ((a : ℤ) → IsRemote (λ w n. remote w a n))
      → Returns LeavesWhole (route_read c s w t remote start nb)
  unfolding route_read
  route_read-Returns t remote xs start nb v filled asked =
      let b = table_of t s.map in
      let (at, inside) =
        routed_offset-index b (length xs - 1) start (v.sized ∙ ap pos (omega (arith, filled))) in
      let k = index b start in
      let m : ℕ = min nb (length xs - k) in
      rw (at, clipped-at b xs v k nb (omega (arith, inside, filled)))
        (Returns-bind (asked (routed_address s.base.pdu_addressing (b.start +ℤ pos k)) w m)
          λ r fits.
            Returns-bind
              (stored-held b xs v k m (omega (arith, inside, filled)) r.1.stored
                (omega (arith, fits)))
              λ tab stored. rw (stored.1) (
                Returns-ok (
                  put_table-AllWhole t s (with_elements b stored.0) all
                    (with_elements-Keeps b xs stored.0 v stored.2).whole)))

  -- A table without memory has its element before the first one written by the device's value.
  route_read-without_memory :
      (t : Table) (remote : W → ℤ → ℤ → Outcome (W × Reply)) (start nb y : ℕ) (w' : W) (rc : ℤ)
      → table_of t s.map ≡ empty_block
      → 0 < nb
      → remote w (routed_address s.base.pdu_addressing (negsuc 0)) (pos 1)
        ≡ ok (w', record { rc = rc; stored = y ∷ [] })
      → route_read c s w t remote start nb ≡ fault
  unfolding route_read copy_in clipped ◌+ℤ◌ ◌-ℤ◌
  route_read-without_memory t remote start nb y w' rc e some_asked answers =
      let offset : routed_offset empty_block (pos start) ≡ negsuc 0 = ground arith in
      let one : clipped empty_block (negsuc 0) (pos nb) ≡ pos 1 = ground arith in
      rw (e, offset, one, answers) refl

module _ {W : Type 0} (c : Client W) (client : IsClient c) (s : BufferedSlave) (all : AllWhole s)
    (w : W) (opened : is_open s.base ≡ true) (req : Message) (start nb : ℕ)
    (starts : starting_address req ≡ ok start) (counts : quantity req ≡ ok nb) where
  -- A request to read a table with an element that is passed on to the device returns, and touches
  -- no memory outside the table, wherever it starts and however much it asks for.
  pub read_from_device-Returns :
      (t : Table) (xs : List ℕ)
      → function req ≡ ok (read_function t)
      → Holds (table_of t s.map) xs
      → 0 < length xs
      → Returns LeavesWhole (read_from_device c s w (some req))
  unfolding read_from_device Slave.read_coils Slave.read_discrete_inputs Slave.read_registers
      Slave.read_input_registers
  read_from_device-Returns coil xs f v filled =
      rw (opened, starts, counts, f)
        (route_read-Returns c s all w coil (Slave.read_coils c s.base) xs start nb v filled λ a.
          access-IsRemote c s.base (λ w m. c.read_bits w (pdu_address s.base a) m) opened
            λ w. client.bits_fit w (pdu_address s.base a))
  read_from_device-Returns discrete_input xs f v filled =
      rw (opened, starts, counts, f)
        (route_read-Returns c s all w discrete_input (Slave.read_discrete_inputs c s.base) xs start
          nb v filled
          λ a.
            access-IsRemote c s.base (λ w m. c.read_input_bits w (pdu_address s.base a) m) opened
              λ w. client.input_bits_fit w (pdu_address s.base a))
  read_from_device-Returns holding_register xs f v filled =
      rw (opened, starts, counts, f)
        (route_read-Returns c s all w holding_register (Slave.read_registers c s.base) xs start nb v
          filled
          λ a.
            access-IsRemote c s.base (λ w m. c.read_registers w (pdu_address s.base a) m) opened
              λ w. client.registers_fit w (pdu_address s.base a))
  read_from_device-Returns input_register xs f v filled =
      rw (opened, starts, counts, f)
        (route_read-Returns c s all w input_register (Slave.read_input_registers c s.base) xs start
          nb v filled
          λ a.
            access-IsRemote c s.base (λ w m. c.read_input_registers w (pdu_address s.base a) m)
              opened λ w. client.input_registers_fit w (pdu_address s.base a))

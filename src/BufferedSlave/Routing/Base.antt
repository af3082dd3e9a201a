-- ===== src/BufferedSlave/Routing/Base.antt =====
-- A routed request changes values in the tables and the report of a slave, never its number or its
-- device.
use libmodbuspp.Base.{
  ℕ, ◌≡◌, refl, Option, none, some, List, ◌==◌, ℤ, pos, ◌+ℤ◌, ltb_ℤ, Outcome, Ensures, Ensures-then,
  Ensures-bind, Ensures-if, Ensures-ok, Ensures-thrown,
}
use libmodbuspp.Message.{Message, function, starting_address, quantity}
use libmodbuspp.Slave
use libmodbuspp.Slave.{Client, Reply, is_open}
use libmodbuspp.BufferedSlave.Block.{Block, clipped, copy_in, copy_out}
use libmodbuspp.BufferedSlave.Tables.{
  BufferedSlave, Table, coil, discrete_input, holding_register, input_register, table_of, put_table,
  as_bool,
}
use libmodbuspp.BufferedSlave.Block.Whole.{InPlace-IsWhole, copy_in-InPlace}
use libmodbuspp.BufferedSlave.Safe.{AllWhole, put_table-AllWhole}
use libmodbuspp.BufferedSlave.Device.{stored_report}
use libmodbuspp.BufferedSlave.Routing.{
  routed_offset, routed_address, route_read, route_report, read_from_device, element,
  route_write_one, route_write_many, write_to_device,
}

pub put_table-base : (t : Table) (s : BufferedSlave) (b : Block) → (put_table t s b).base ≡ s.base
put_table-base coil s b = refl
put_table-base discrete_input s b = refl
put_table-base holding_register s b = refl
put_table-base input_register s b = refl

-- `s'` has the number and the device of `s`, and whole tables.
pub record Routed (s s' : BufferedSlave) : Type 0 where
  pub same_base : s'.base ≡ s.base
  pub whole : AllWhole s'

module _ {W : Type 0} (c : Client W) (s : BufferedSlave) (all : AllWhole s) (w : W) where
  abbrev KeepsRouted : BufferedSlave × W × ℤ → Type 0
  KeepsRouted r = Routed s r.0

  unchanged : Routed s s
  unchanged = record { same_base = refl; whole = all }

  abbrev at : Block → ℕ → ℤ
  at b start = routed_address s.base.pdu_addressing (b.start +ℤ routed_offset b (pos start))

  abbrev span : Block → ℕ → ℕ → ℤ
  span b start nb = clipped b (routed_offset b (pos start)) (pos nb)

  route_read-Routed :
      (t : Table) (remote : W → ℤ → ℤ → Outcome (W × Reply)) (start nb : ℕ)
      → Ensures KeepsRouted (route_read c s w t remote start nb)
  unfolding route_read
  route_read-Routed t remote start nb =
      let b = table_of t s.map in
      Ensures-then (remote w (at b start) (span b start nb)) λ r.
        Ensures-bind (copy_in b.tab (routed_offset b (pos start)) r.1.stored)
          (copy_in-InPlace b (routed_offset b (pos start)) r.1.stored)
          λ tab kept.
            let b' = record b { tab = tab } in
            Ensures-ok record {
              same_base = put_table-base t s b';
              whole = put_table-AllWhole t s b' all (InPlace-IsWhole b b' kept (all t));
            }

  route_report-Routed : Ensures KeepsRouted (route_report c s w)
  unfolding route_report
  route_report-Routed = Ensures-then (Slave.report_slave_id c s.base w c.max_pdu_length) λ r.
      Ensures-then (stored_report c s w r.1.stored) λ ys.
        Ensures-if (ltb_ℤ r.1.rc (pos 0)) Ensures-thrown
          (Ensures-ok record { same_base = refl; whole = all })

  route_write_one-Routed :
      (b : Block) (remote : W → ℤ → ℕ → Outcome (W × ℤ)) (start : ℕ)
      → Ensures KeepsRouted (route_write_one c s w b remote start)
  unfolding route_write_one
  route_write_one-Routed b remote start =
      Ensures-then (element c s w b (routed_offset b (pos start)))
        λ x. Ensures-then (remote w (at b start) x) λ r. Ensures-ok unchanged

  route_write_many-Routed :
      (b : Block) (remote : W → ℤ → List ℕ → ℤ → Outcome (W × ℤ)) (start nb : ℕ)
      → Ensures KeepsRouted (route_write_many c s w b remote start nb)
  unfolding route_write_many
  route_write_many-Routed b remote start nb =
      Ensures-then (copy_out b.tab (routed_offset b (pos start)) (span b start nb))
        λ xs. Ensures-then (remote w (at b start) xs (span b start nb)) λ r. Ensures-ok unchanged

  pub read_from_device-Routed :
      (req : Option Message) → Ensures KeepsRouted (read_from_device c s w req)
  unfolding read_from_device
  read_from_device-Routed none = Ensures-ok unchanged
  read_from_device-Routed (some req) =
      Ensures-if (is_open s.base)
        (Ensures-then (starting_address req) λ start. Ensures-then (quantity req) λ nb.
          Ensures-then (function req) λ f.
            Ensures-if (f == 0x01) (route_read-Routed coil (Slave.read_coils c s.base) start nb) (
              Ensures-if (f == 0x02)
                (route_read-Routed discrete_input (Slave.read_discrete_inputs c s.base) start nb)
                (Ensures-if (f == 0x03)
                  (route_read-Routed holding_register (Slave.read_registers c s.base) start nb)
                  (Ensures-if (f == 0x04)
                    (route_read-Routed input_register (Slave.read_input_registers c s.base) start
                      nb)
                    (Ensures-if (f == 0x11) route_report-Routed (Ensures-ok unchanged))))))
        (Ensures-ok unchanged)

  pub write_to_device-Routed :
      (req : Option Message) → Ensures KeepsRouted (write_to_device c s w req)
  unfolding write_to_device
  write_to_device-Routed none = Ensures-ok unchanged
  write_to_device-Routed (some req) =
      Ensures-if (is_open s.base)
        (Ensures-then (starting_address req) λ start. Ensures-then (quantity req) λ nb.
          Ensures-then (function req) λ f.
            Ensures-if (f == 0x05)
              (route_write_one-Routed s.map.bits
                (λ w addr x. Slave.write_coil c s.base w addr (as_bool x)) start)
              (Ensures-if (f == 0x0F)
                (route_write_many-Routed s.map.bits (Slave.write_coils c s.base) start nb)
                (Ensures-if (f == 0x06)
                  (route_write_one-Routed s.map.registers (Slave.write_register c s.base) start)
                  (Ensures-if (f == 0x10)
                    (route_write_many-Routed s.map.registers (Slave.write_registers c s.base) start
                      nb)
                    (Ensures-ok unchanged)))))
        (Ensures-ok unchanged)

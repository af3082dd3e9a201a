-- ===== src/BufferedSlave/Routing/SafeWrite.antt =====
-- Requests that `writeToDevice` of src/bufferedslave.cpp passes on, and the memory of the tables.
use libmodbuspp.Base.{
  ℕ, ◌-◌, ◌≤◌, ◌<◌, min, ◌≡◌, refl, ap, ◌∙◌, arith, Bool, true, false, List, length, some, ℤ, pos,
  ◌+ℤ◌, get_elem?-lt, Outcome, ok, Returns, Returns-ok, Returns-bind,
}
use libmodbuspp.Message.{Message, function, starting_address, quantity}
use libmodbuspp.Slave
use libmodbuspp.Slave.{Client, is_open, pdu_address}
use libmodbuspp.BufferedSlave.Block.{Block}
use libmodbuspp.BufferedSlave.Block.Valid.{Holds, clipped-at}
use libmodbuspp.BufferedSlave.Block.Safe.{copied}
use libmodbuspp.BufferedSlave.Block.SafeWrite.{IsCall}
use libmodbuspp.BufferedSlave.Tables.{BufferedSlave, as_bool}
use libmodbuspp.BufferedSlave.Safe.{access-IsCall}
use libmodbuspp.BufferedSlave.Routing.{
  routed_offset, routed_address, route_write_one, route_write_many, write_to_device,
}
use libmodbuspp.BufferedSlave.Routing.Safe.{index, routed_offset-index}

-- The code of the function that writes one or many coils or holding registers.
abbrev pub write_function : Bool → Bool → ℕ
write_function true false = 0x05
write_function true true = 0x0F
write_function false false = 0x06
write_function false true = 0x10

-- The table that is written.
abbrev pub written : Bool → BufferedSlave → Block
written true s = s.map.bits
written false s = s.map.registers

abbrev pub Leaves : {W : Type 0} → BufferedSlave → BufferedSlave × W × ℤ → Type 0
Leaves s r = r.0 ≡ s

module _ {W : Type 0} (c : Client W) (s : BufferedSlave) (w : W) (b : Block) (xs : List ℕ)
    (v : Holds b xs) (filled : 0 < length xs) (start : ℕ) where
  abbrev placed :
      (routed_offset b (pos start) ≡ pos (index b start)) × (index b start ≤ length xs - 1)
  placed = routed_offset-index b (length xs - 1) start (v.sized ∙ ap pos (omega (arith, filled)))

  route_write_one-Returns :
      (remote : W → ℤ → ℕ → Outcome (W × ℤ))
      → ((w : W) (a : ℤ) → IsCall (remote w a))
      → Returns (Leaves s) (route_write_one c s w b remote start)
  unfolding route_write_one
  route_write_one-Returns remote call =
      let k = index b start in
      let (x, found) = get_elem?-lt xs k (omega (arith, placed.1, filled)) in
      rw (placed.0, v.held, found)
        (Returns-bind (call w (routed_address s.base.pdu_addressing (b.start +ℤ pos k)) x)
          λ r _. Returns-ok refl)

  route_write_many-Returns :
      (remote : W → ℤ → List ℕ → ℤ → Outcome (W × ℤ)) (nb : ℕ)
      → ((w : W) (a : ℤ) (m : ℤ) → IsCall (λ ys. remote w a ys m))
      → Returns (Leaves s) (route_write_many c s w b remote start nb)
  unfolding route_write_many
  route_write_many-Returns remote nb call =
      let k = index b start in
      let inside : k < length xs = omega (arith, placed.1, filled) in
      let m : ℕ = min nb (length xs - k) in
      rw (placed.0, clipped-at b xs v k nb inside)
        (Returns-bind (copied b xs v k m (omega (arith, inside)) b xs v refl) λ ys _.
          Returns-bind (call w (routed_address s.base.pdu_addressing (b.start +ℤ pos k)) (pos m) ys)
            λ r _. Returns-ok refl)

module _ {W : Type 0} (c : Client W) (s : BufferedSlave) (w : W) (opened : is_open s.base ≡ true)
    (req : Message) (start nb : ℕ) (starts : starting_address req ≡ ok start)
    (counts : quantity req ≡ ok nb) where
  -- A request to write to a table with an element that is passed on to the device returns, touches
  -- no memory outside the table, and leaves the slave as it is.
  pub write_to_device-Returns :
      (coils many : Bool) (xs : List ℕ)
      → function req ≡ ok (write_function coils many)
      → Holds (written coils s) xs
      → 0 < length xs
      → Returns (Leaves s) (write_to_device c s w (some req))
  unfolding write_to_device Slave.write_coils Slave.write_coil Slave.write_registers
      Slave.write_register
  write_to_device-Returns true false xs f v filled =
      rw (opened, starts, counts, f)
        (route_write_one-Returns c s w s.map.bits xs v filled start
          (λ w addr x. Slave.write_coil c s.base w addr (as_bool x))
          λ w a. access-IsCall c s.base _ w opened)
  write_to_device-Returns true true xs f v filled =
      rw (opened, starts, counts, f)
        (route_write_many-Returns c s w s.map.bits xs v filled start (Slave.write_coils c s.base) nb
          λ w a m. access-IsCall c s.base _ w opened)
  write_to_device-Returns false false xs f v filled =
      rw (opened, starts, counts, f)
        (route_write_one-Returns c s w s.map.registers xs v filled start
          (Slave.write_register c s.base) λ w a. access-IsCall c s.base _ w opened)
  write_to_device-Returns false true xs f v filled =
      rw (opened, starts, counts, f)
        (route_write_many-Returns c s w s.map.registers xs v filled start
          (Slave.write_registers c s.base) nb λ w a m. access-IsCall c s.base _ w opened)

-- ===== src/BufferedSlave/Values.antt =====
-- The templates of include/modbuspp/slave.h and include/modbuspp/bufferedslave.h that carry values of
-- more than a register: `readRegisters`, `writeRegisters` and their kin on `Data <T, e>`.
pub mod RoundTrip
use libmodbuspp.Base.{
  ℕ, zero, suc, ◌*◌, ◌≤◌, List, [], ◌∷◌, ◌++◌, length, take, drop, replicate, splice, leb, ◌==◌,
  if◌then◌else◌, ℤ, pos, pos_part, to_size, ltb_ℤ, eqb_ℤ, Outcome, ok, thrown, fault, ◌>>=◌,
  length_error,
}
use libmodbuspp.Slave.{Client}
use libmodbuspp.BufferedSlave.Tables.{
  BufferedSlave, read_registers, write_registers, read_input_registers, write_input_registers,
}
use libmodbuspp.Data.{Data, update_registers, update_value}

-- `updateRegisters` on so many values, and their registers one after another.
unfoldable pub gather : ℕ → List Data → Outcome (List Data × List ℕ)
gather zero src = ok (src, [])
gather (suc n) [] = fault
gather (suc n) (d ∷ src) =
    let d' = update_registers d in gather n src >>= λ r. ok (d' ∷ r.0, d'.registers ++ r.1)

-- So many values take their registers from `buf`, and `updateValue` follows.
unfoldable pub scatter : ℕ → List Data → List ℕ → Outcome (List Data)
scatter zero dest buf = ok dest
scatter (suc n) [] buf = fault
scatter (suc n) (d ∷ dest) buf =
    let size = length d.registers in
    let rest = scatter n dest (drop size buf) in
    if leb size (length buf)
    then (rest >>= λ r. ok (update_value (record d { registers = take size buf }) ∷ r))
    else fault

-- `dest[0].registers().size()`
abbrev pub width : List Data → Outcome ℕ
width [] = fault
width (d ∷ dest) = ok (length d.registers)

-- What is read into a buffer of a given size.
abbrev pub filled : ℕ → List ℕ → Outcome (List ℕ)
filled size stored =
    if leb (length stored) size then ok (splice (replicate size 0) 0 stored) else fault

module _ {R : Type 0} where
  -- `writeRegisters` and `writeInputRegisters` on values; `write` is the same on registers.
  unfoldable pub write_values : (List ℕ → ℤ → Outcome R) → List Data → ℤ → Outcome (List Data × R)
  write_values write src nb =
      gather (pos_part nb) src >>= λ g. write g.1 (pos (length g.1)) >>= λ r. ok (g.0, r)

  unfoldable pub write_value : (List ℕ → ℤ → Outcome R) → Data → Outcome (Data × R)
  write_value write value =
      let d = update_registers value in
      write d.registers (pos (length d.registers)) >>= λ r. ok (d, r)

  -- `readRegisters` and `readInputRegisters` on values; `read` is the same on registers, and returns
  -- its `int` and what it has stored. A vector of a negative size is not made.
  unfoldable pub read_values :
      (ℤ → Outcome (R × ℤ × List ℕ)) → List Data → ℤ → Outcome (R × ℤ × List Data)
  read_values read dest nb = width dest >>= λ k.
      let size = to_size nb * k in
      let reading : Outcome (R × ℤ × List Data) =
        (read (pos size) >>= λ r. filled size r.2 >>= λ buf.
        let spread : Outcome (List Data) = scatter (pos_part nb) dest buf in
        if to_size r.1 == size then (spread >>= λ d. ok (r.0, r.1, d)) else ok (r.0, r.1, dest)) in
      if ltb_ℤ nb (pos 0) then thrown length_error else reading

  unfoldable pub read_value : (ℤ → Outcome (R × ℤ × List ℕ)) → Data → Outcome (R × ℤ × Data)
  read_value read dest =
      let size = length dest.registers in
      read (pos size) >>= λ r.
      let d = record dest { registers = splice dest.registers 0 r.2 } in
      let got = if eqb_ℤ r.1 (pos size) then update_value d else d in
      if leb (length r.2) size then ok (r.0, r.1, got) else fault

module _ {W : Type 0} (c : Client W) (s : BufferedSlave) (w : W) (addr : ℤ) where
  abbrev pub paired :
      Outcome (BufferedSlave × W × ℤ × List ℕ) → Outcome ((BufferedSlave × W) × ℤ × List ℕ)
  paired m = m >>= λ r. ok ((r.0, r.1), r.2, r.3)

  abbrev pub write_data : List Data → ℤ → Outcome (List Data × (BufferedSlave × W × ℤ))
  write_data src nb = write_values (write_registers c s w addr) src nb

  abbrev pub read_data : List Data → ℤ → Outcome ((BufferedSlave × W) × ℤ × List Data)
  read_data dest nb = read_values (λ n. paired (read_registers c s w addr n)) dest nb

  abbrev pub write_input_data : List Data → ℤ → Outcome (List Data × (BufferedSlave × W × ℤ))
  write_input_data src nb = write_values (write_input_registers c s w addr) src nb

  abbrev pub read_input_data : List Data → ℤ → Outcome ((BufferedSlave × W) × ℤ × List Data)
  read_input_data dest nb = read_values (λ n. paired (read_input_registers c s w addr n)) dest nb

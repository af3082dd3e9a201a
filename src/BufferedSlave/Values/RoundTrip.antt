-- ===== src/BufferedSlave/Values/RoundTrip.antt =====
-- Values that are written to a table are read from it.
use libmodbuspp.Base.{
  ℕ, ◌+◌, ◌-◌, ◌*◌, ◌≤◌, ◌<◌, ◌≡◌, refl, ap, ap₂, sym, subst, ◌∙◌, arith, true, false, ◌==◌, ltb_ℤ,
  List, [], ◌∷◌, ◌++◌, map, length, take, drop, replicate, All, IsBytes, min, take-append,
  drop-append, take-length, drop-ge, append-nil, length-append, length-replicate, leb, le→leb,
  ==_iff, ℤ, pos, Outcome, ok,
}
use libmodbuspp.Data.{Data, Endian, update_registers, update_value}
use libmodbuspp.Data.Words.{IsEven}
use libmodbuspp.Data.Width.{length-update_registers}
use libmodbuspp.Data.RoundTrip.{registers_carry_value}
use libmodbuspp.Slave.{Client, is_open}
use libmodbuspp.BufferedSlave.Block.Valid.{Holds}
use libmodbuspp.BufferedSlave.Tables.{
  Table, BufferedSlave, table_of, holding_register, input_register, read_registers, write_registers,
  read_input_registers, write_input_registers,
}
use libmodbuspp.BufferedSlave.RoundTrip.{
  address, after_write, write_registers-read_registers, write_input_registers-read_input_registers,
}
use libmodbuspp.BufferedSlave.Values.{
  gather, scatter, filled, width, paired, write_data, read_data, write_input_data, read_input_data,
  write_values, read_values,
}

-- A value of `m` registers to send, and one to receive it.
abbrev pub IsSource : Endian → ℕ → Data → Type 0
IsSource e m d = (d.endian ≡ e) × IsBytes d.value × (length d.value ≡ 2 * m)

abbrev pub IsTarget : Endian → ℕ → Data → Type 0
IsTarget e m d = (d.endian ≡ e) × (length d.registers ≡ m)

-- The registers of values, one after another.
abbrev pub registers_of : List Data → List ℕ
registers_of [] = []
registers_of (d ∷ ds) = (update_registers d).registers ++ registers_of ds

abbrev pub values_of : List Data → List (List ℕ)
values_of ds = map (λ d. d.value) ds

gather-all :
    (src : List Data) → gather (length src) src ≡ ok (map update_registers src, registers_of src)
unfolding gather
gather-all [] = refl
gather-all (d ∷ src) = rw (gather-all src) refl

module _ (e : Endian) (m : ℕ) where
  width-source : (d : Data) → IsSource e m d → length (update_registers d).registers ≡ m
  width-source d h =
      let n : length d.value ≡ 2 * m = h.2 in omega (arith, length-update_registers d (omega arith))

  length-registers_of :
      (src : List Data) → All (IsSource e m) src → length (registers_of src) ≡ length src * m
  length-registers_of [] h = omega arith
  length-registers_of (d ∷ src) h = omega (
    arith,
    length-append (update_registers d).registers (registers_of src),
    width-source d h.0,
    length-registers_of src h.1,
  )

  carried :
      (d t : Data)
      → IsSource e m d
      → IsTarget e m t
      → (update_value (record t { registers = (update_registers d).registers })).value ≡ d.value
  unfolding update_registers
  carried d t h k =
      let even : IsEven d.value = omega (arith, h.2) in
      subst
        (λ x.
          (update_value (record {
            value = t.value;
            endian = x;
            registers = (update_registers d).registers;
          })).value
          ≡ d.value)
        (h.0 ∙ sym k.0) (registers_carry_value d.endian d.value t.value d.registers h.1 even)

  abbrev Received : List Data → List Data → Type 0
  Received src dest =
      (got : List Data) × (scatter (length dest) dest (registers_of src) ≡ ok got)
      × (values_of got ≡ values_of src)

  scatter-registers_of :
      (src dest : List Data)
      → length src ≡ length dest
      → All (IsSource e m) src
      → All (IsTarget e m) dest
      → Received src dest
  unfolding scatter
  scatter-registers_of [] [] l h k = ([], refl, refl)
  scatter-registers_of [] (t ∷ dest) l h k = absurd (omega arith)
  scatter-registers_of (d ∷ src) [] l h k = absurd (omega arith)
  scatter-registers_of (d ∷ src) (t ∷ dest) l h k =
      let (got, read, same) = scatter-registers_of src dest (omega arith) h.1 k.1 in
      let a = (update_registers d).registers in
      let rest = registers_of src in
      let size : length t.registers ≡ length a = omega (arith, width-source d h.0, k.0.1) in
      let fits : leb (length a) (length (a ++ rest)) ≡ true =
        le→leb _ _ (omega (arith, length-append a rest)) in
      (
        update_value (record t { registers = a }) ∷ got,
        rw (size, drop-append a rest, take-append a rest, fits, read) refl,
        ap₂ ◌∷◌ (carried d t h.0 k.0) same,
      )

filled-all : (xs : List ℕ) (n : ℕ) → length xs ≡ n → filled n xs ≡ ok xs
filled-all xs n e =
    let fits : leb (length xs) n ≡ true = le→leb (length xs) n (omega (arith, e)) in
    let over : drop {A = ℕ} (0 + length xs) (replicate n 0) ≡ [] =
      drop-ge (0 + length xs) (replicate n 0) (omega (arith, e, length-replicate {A = ℕ} n 0)) in
    rw (fits, over) (ap ok (append-nil xs))

width-target :
    (e : Endian) (m : ℕ) (dest : List Data)
    → 0 < length dest
    → All (IsTarget e m) dest
    → width dest ≡ ok m
width-target e m [] l h = absurd (omega arith)
width-target e m (t ∷ dest) l h = ap ok h.0.1

abbrev pub Sizes : List Data → List Data → Type 0
Sizes src dest = (length src ≡ length dest) × (0 < length src)

module _ (e : Endian) (m : ℕ) (src dest : List Data) (Q R : Type 0) where
  -- Any access to registers that takes them all and gives them back.
  values_carried :
      (write : List ℕ → ℤ → Outcome Q) (read : ℤ → Outcome (R × ℤ × List ℕ)) (r : Q) (r' : R)
      → All (IsSource e m) src
      → All (IsTarget e m) dest
      → Sizes src dest
      → let regs = registers_of src in
        let n = pos (length regs) in
        (write regs n ≡ ok r) × (read n ≡ ok (r', n, regs))
        → (write_values write src (pos (length src)) ≡ ok (map update_registers src, r))
          × ((got : List Data) × (read_values read dest (pos (length dest))
                ≡ ok (r', pos (length (registers_of src)), got))
              × (values_of got ≡ values_of src))
  unfolding write_values read_values
  values_carried write read r r' h k z (written, found) =
      let regs = registers_of src in
      let (got, spread, same) = scatter-registers_of e m src dest z.0 h k in
      let size : length dest * m ≡ length regs =
        ap (λ n. n * m) (sym z.0) ∙ sym (length-registers_of e m src h) in
      let forward : ltb_ℤ (pos (length dest)) (pos 0) ≡ false = ground arith in
      let whole : (length regs == length regs) ≡ true =
        (==_iff (length regs) (length regs)).1 refl in
      (
        rw (gather-all src, written) refl,
        (
          got,
          rw
              (
                width-target e m dest (omega (arith, z.0, z.1)) k,
                forward,
                size,
                found,
                filled-all regs (length regs) refl,
                whole,
                spread,
              )
              refl,
          same,
        ),
      )

module _ {W : Type 0} (c : Client W) (s : BufferedSlave) (w : W) (xs : List ℕ) (k m : ℕ)
    (e : Endian) (src dest : List Data) where
  abbrev Fits : Table → Type 0
  Fits t =
      Holds (table_of t s.map) xs × (k + length (registers_of src) ≤ length xs) × (k < length xs)

  -- While the device of a slave is not open, values of the same number of registers and the same
  -- order of bytes and words that are written to its holding registers, where they fit, are the
  -- values that a read at that place returns. Both calls return the number of the registers.
  pub write_data-read_data :
      is_open s.base ≡ false
      → Fits holding_register
      → All (IsSource e m) src
      → All (IsTarget e m) dest
      → Sizes src dest
      → let n = pos (length (registers_of src)) in
        let s' =
          after_write c s w xs (registers_of src) k (length (registers_of src)) holding_register in
        let at =
          address c s w xs (registers_of src) k (length (registers_of src)) holding_register in
        (write_data c s w at src (pos (length src)) ≡ ok (map update_registers src, (s', w, n)))
        × ((got : List Data) × (read_data c s' w at dest (pos (length dest)) ≡ ok ((s', w), n, got))
            × (values_of got ≡ values_of src))
  write_data-read_data closed (v, fits, l) h g z =
      let regs = registers_of src in
      let n = length regs in
      let s' = after_write c s w xs regs k n holding_register in
      let at = address c s w xs regs k n holding_register in
      let t = write_registers-read_registers c s w xs regs k n closed v l (omega arith) in
      let f : min n (length xs - k) ≡ n = omega arith in
      values_carried e m src dest (BufferedSlave × W × ℤ) (BufferedSlave × W)
        (write_registers c s w at) (λ n. paired c s' w at (read_registers c s' w at n))
        (s', w, pos n) (s', w) h g z
        (
          t.0 ∙ ap (λ m. ok (s', w, pos m)) f,
          ap (paired c s' w at) (
              t.1
              ∙ ap (λ m. ok (s', w, pos m, take m regs)) f
              ∙ ap (λ ys. ok (s', w, pos n, ys)) (take-length regs)),
        )

  -- While the device of a slave is not open, values of the same number of registers and the same
  -- order of bytes and words that are written to its input registers, where they fit, are the
  -- values that a read at that place returns. Both calls return the number of the registers.
  pub write_input_data-read_input_data :
      is_open s.base ≡ false
      → Fits input_register
      → All (IsSource e m) src
      → All (IsTarget e m) dest
      → Sizes src dest
      → let n = pos (length (registers_of src)) in
        let s' =
          after_write c s w xs (registers_of src) k (length (registers_of src)) input_register in
        let at = address c s w xs (registers_of src) k (length (registers_of src)) input_register in
        (write_input_data c s w at src (pos (length src))
          ≡ ok (map update_registers src, (s', w, n)))
        × ((got : List Data) × (read_input_data c s' w at dest (pos (length dest))
              ≡ ok ((s', w), n, got))
            × (values_of got ≡ values_of src))
  write_input_data-read_input_data closed (v, fits, l) h g z =
      let regs = registers_of src in
      let n = length regs in
      let s' = after_write c s w xs regs k n input_register in
      let at = address c s w xs regs k n input_register in
      let t =
        write_input_registers-read_input_registers c s w xs regs k n closed v l (omega arith) in
      let f : min n (length xs - k) ≡ n = omega arith in
      values_carried e m src dest (BufferedSlave × W × ℤ) (BufferedSlave × W)
        (write_input_registers c s w at) (λ n. paired c s' w at (read_input_registers c s' w at n))
        (s', w, pos n) (s', w) h g z
        (
          t.0 ∙ ap (λ m. ok (s', w, pos m)) f,
          ap (paired c s' w at) (
              t.1
              ∙ ap (λ m. ok (s', w, pos m, take m regs)) f
              ∙ ap (λ ys. ok (s', w, pos n, ys)) (take-length regs)),
        )

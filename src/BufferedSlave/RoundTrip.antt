-- ===== src/BufferedSlave/RoundTrip.antt =====
-- A buffered slave whose device is not open is a memory: what is written is read back.
pub mod Any
use libmodbuspp.Base.{
  ℕ, ◌-◌, ◌≤◌, ◌<◌, min, ◌≡◌, refl, sym, ap, ◌∙◌, arith, false, List, length, take, drop, splice,
  length-splice, length-take, take-drop-splice, ℤ, pos, ◌+ℤ◌, -ℤ_cancel, Outcome, ok, ◌>>=◌,
  if◌then◌else◌,
}
use libmodbuspp.Slave
use libmodbuspp.Slave.{Slave, Client, Reply, is_open, pdu_address, data_address}
use libmodbuspp.BufferedSlave.Block.{Block, read_block}
use libmodbuspp.BufferedSlave.Block.Valid.{
  Holds, with_elements, read_block-closed, write_block-closed, store_block-at,
}
use libmodbuspp.BufferedSlave.Tables.{
  BufferedSlave, Table, coil, discrete_input, input_register, holding_register, table_of, put_table,
  as_bool, read_coils, write_coils, read_registers, write_registers, read_discrete_inputs,
  write_discrete_inputs, read_input_registers, write_input_registers,
}

-- The address of the library's user is that of the PDU again.
pub pdu_address-data_address : (s : Slave) (a : ℤ) → pdu_address s (data_address s a) ≡ a
unfolding pdu_address data_address
pdu_address-data_address s a = -ℤ_cancel a (if s.pdu_addressing then pos 0 else pos 1)

-- `ys` is `xs` with the values from `k` on, as far as they fit.
abbrev pub written : List ℕ → ℕ → ℕ → List ℕ → List ℕ
written xs k n src = splice xs k (take (min n (length xs - k)) src)

pub Holds-written :
    (b : Block) (xs : List ℕ) (k n : ℕ) (src : List ℕ)
    → Holds b xs
    → k < length xs
    → n ≤ length src
    → Holds (with_elements b (written xs k n src)) (written xs k n src)
Holds-written b xs k n src v h l = record { held = refl; sized = v.sized ∙ ap pos (sym same) }
  where
    same : length (written xs k n src) ≡ length xs
    same =
        length-splice xs k (take (min n (length xs - k)) src)
          (omega (arith, length-take (min n (length xs - k)) src))

pub length-written :
    (xs : List ℕ) (k n : ℕ) (src : List ℕ)
    → k < length xs
    → n ≤ length src
    → length (written xs k n src) ≡ length xs
length-written xs k n src h l =
    length-splice xs k (take (min n (length xs - k)) src)
      (omega (arith, length-take (min n (length xs - k)) src))

-- A read of what was written, at the same place.
take-drop-written :
    (xs : List ℕ) (k n : ℕ) (src : List ℕ)
    → k < length xs
    → n ≤ length src
    → take (min n (length xs - k)) (drop k (written xs k n src)) ≡ take (min n (length xs - k)) src
take-drop-written xs k n src h l =
    let m : ℕ = min n (length xs - k) in
    let e : length (take m src) ≡ m = omega (arith, length-take m src) in
    ap (λ i. take i (drop k (written xs k n src))) (sym e)
    ∙ take-drop-splice xs k (take m src) (omega arith)

module _ {W : Type 0} (einval : W → W) (b : Block) (xs src : List ℕ) (k n : ℕ) (w : W) where
  -- Reading a table at the place where it was written.
  pub read_block-written :
      (remote : W → ℤ → Outcome (W × Reply))
      → Holds b xs
      → k < length xs
      → n ≤ length src
      → read_block einval
          (with_elements b (written xs k n src))
          false
          remote
          w
          (b.start +ℤ pos k)
          (pos n)
        ≡ (let m = min n (length xs - k) in
            ok (with_elements b (written xs k n src), w, pos m, take m src))
  read_block-written remote v h l =
      let ys = written xs k n src in
      let b' = with_elements b ys in
      let e : length ys ≡ length xs = length-written xs k n src h l in
      read_block-closed einval b' ys (Holds-written b xs k n src v h l) w remote k n (rw e h)
      ∙ ap (λ l. ok (b', w, pos (min n (l - k)), take (min n (l - k)) (drop k ys))) e
      ∙ ap (λ r. ok (b', w, pos (min n (length xs - k)), r)) (take-drop-written xs k n src h l)

module _ {W : Type 0} (c : Client W) (s : BufferedSlave) (w : W) (xs src : List ℕ) (k n : ℕ) where
  -- The state after a write to a table of `n` values of `src`, from its `k`-th element on.
  abbrev pub after_write : Table → BufferedSlave
  after_write t = put_table t s (with_elements (table_of t s.map) (written xs k n src))

  -- The address that the user gives to the `k`-th element of a table.
  abbrev pub address : Table → ℤ
  address t = data_address s.base ((table_of t s.map).start +ℤ pos k)

  -- While its device is not open, a whole table of coils takes the values that are written from
  -- its `k`-th element on, as far as they fit, and a read at that place returns the same values.
  -- Both return their number, and leave the state outside and the other tables alone.
  pub write_coils-read_coils :
      is_open s.base ≡ false
      → Holds (table_of coil s.map) xs
      → k < length xs
      → n ≤ length src
      → let m = min n (length xs - k) in
        let s' = after_write coil in
        (write_coils c s w (address coil) src (pos n) ≡ ok (s', w, pos m))
        × (read_coils c s' w (address coil) (pos n) ≡ ok (s', w, pos m, take m src))
        × Holds (table_of coil s'.map) (written xs k n src)
  unfolding write_coils read_coils
  write_coils-read_coils closed v h l = (
    rw (closed, pdu_address-data_address s.base ((table_of coil s.map).start +ℤ pos k))
        (ap (λ m. m >>= λ (r : Block × W × ℤ). ok (put_table coil s r.0, r.1, r.2))
          (write_block-closed c.set_einval s.map.bits xs v w
            (λ w x. Slave.write_coil c s.base w (address coil) (as_bool x))
            (λ w xs n. Slave.write_coils c s.base w (address coil) xs n) src k n h l)),
    rw (closed, pdu_address-data_address s.base ((table_of coil s.map).start +ℤ pos k))
        (ap (λ m. m >>= λ (r : Block × W × ℤ × List ℕ). ok (put_table coil s r.0, r.1, r.2, r.3))
          (read_block-written c.set_einval s.map.bits xs src k n w _ v h l)),
    Holds-written s.map.bits xs k n src v h l,
  )

  -- While its device is not open, a whole table of holding registers takes the values that are written from
  -- its `k`-th element on, as far as they fit, and a read at that place returns the same values.
  -- Both return their number, and leave the state outside and the other tables alone.
  pub write_registers-read_registers :
      is_open s.base ≡ false
      → Holds (table_of holding_register s.map) xs
      → k < length xs
      → n ≤ length src
      → let m = min n (length xs - k) in
        let s' = after_write holding_register in
        (write_registers c s w (address holding_register) src (pos n) ≡ ok (s', w, pos m))
        × (read_registers c s' w (address holding_register) (pos n) ≡ ok (s', w, pos m, take m src))
        × Holds (table_of holding_register s'.map) (written xs k n src)
  unfolding write_registers read_registers
  write_registers-read_registers closed v h l = (
    rw (closed, pdu_address-data_address s.base ((table_of holding_register s.map).start +ℤ pos k))
        (ap (λ m. m >>= λ (r : Block × W × ℤ). ok (put_table holding_register s r.0, r.1, r.2))
          (write_block-closed c.set_einval s.map.registers xs v w
            (λ w x. Slave.write_register c s.base w (address holding_register) x)
            (λ w xs n. Slave.write_registers c s.base w (address holding_register) xs n) src k n h
            l)),
    rw (closed, pdu_address-data_address s.base ((table_of holding_register s.map).start +ℤ pos k))
        (ap
          (λ m. m >>= λ (r : Block × W × ℤ × List ℕ).
            ok (put_table holding_register s r.0, r.1, r.2, r.3))
          (read_block-written c.set_einval s.map.registers xs src k n w _ v h l)),
    Holds-written s.map.registers xs k n src v h l,
  )

  -- While its device is not open, a whole table of discrete inputs takes the values that are written from
  -- its `k`-th element on, as far as they fit, and a read at that place returns the same values.
  -- Both return their number, and leave the state outside and the other tables alone.
  pub write_discrete_inputs-read_discrete_inputs :
      is_open s.base ≡ false
      → Holds (table_of discrete_input s.map) xs
      → k < length xs
      → n ≤ length src
      → let m = min n (length xs - k) in
        let s' = after_write discrete_input in
        (write_discrete_inputs c s w (address discrete_input) src (pos n) ≡ ok (s', w, pos m))
        × (read_discrete_inputs c s' w (address discrete_input) (pos n)
            ≡ ok (s', w, pos m, take m src))
        × Holds (table_of discrete_input s'.map) (written xs k n src)
  unfolding write_discrete_inputs read_discrete_inputs
  write_discrete_inputs-read_discrete_inputs closed v h l = (
    rw (pdu_address-data_address s.base ((table_of discrete_input s.map).start +ℤ pos k)) (
        ap (λ m. m >>= λ (r : Block × W × ℤ). ok (put_table discrete_input s r.0, r.1, r.2))
          (store_block-at c.set_einval s.map.input_bits xs v w src k n h l)),
    rw (closed, pdu_address-data_address s.base ((table_of discrete_input s.map).start +ℤ pos k))
        (ap
          (λ m. m >>= λ (r : Block × W × ℤ × List ℕ).
            ok (put_table discrete_input s r.0, r.1, r.2, r.3))
          (read_block-written c.set_einval s.map.input_bits xs src k n w _ v h l)),
    Holds-written s.map.input_bits xs k n src v h l,
  )

  -- While its device is not open, a whole table of input registers takes the values that are written from
  -- its `k`-th element on, as far as they fit, and a read at that place returns the same values.
  -- Both return their number, and leave the state outside and the other tables alone.
  pub write_input_registers-read_input_registers :
      is_open s.base ≡ false
      → Holds (table_of input_register s.map) xs
      → k < length xs
      → n ≤ length src
      → let m = min n (length xs - k) in
        let s' = after_write input_register in
        (write_input_registers c s w (address input_register) src (pos n) ≡ ok (s', w, pos m))
        × (read_input_registers c s' w (address input_register) (pos n)
            ≡ ok (s', w, pos m, take m src))
        × Holds (table_of input_register s'.map) (written xs k n src)
  unfolding write_input_registers read_input_registers
  write_input_registers-read_input_registers closed v h l = (
    rw (pdu_address-data_address s.base ((table_of input_register s.map).start +ℤ pos k)) (
        ap (λ m. m >>= λ (r : Block × W × ℤ). ok (put_table input_register s r.0, r.1, r.2))
          (store_block-at c.set_einval s.map.input_registers xs v w src k n h l)),
    rw (closed, pdu_address-data_address s.base ((table_of input_register s.map).start +ℤ pos k))
        (ap
          (λ m. m >>= λ (r : Block × W × ℤ × List ℕ).
            ok (put_table input_register s r.0, r.1, r.2, r.3))
          (read_block-written c.set_einval s.map.input_registers xs src k n w _ v h l)),
    Holds-written s.map.input_registers xs k n src v h l,
  )

-- ===== src/BufferedSlave/SendThrough.antt =====
-- What a buffered slave whose device is open passes to the device.
use libmodbuspp.Base.{
  ℕ, ◌-◌, ◌≤◌, ◌<◌, min, ◌≡◌, sym, ap, ◌∙◌, arith, true, false, List, [], ◌∷◌, length, take,
  length-take, splice, ℤ, pos, eqb_ℤ, Outcome, ok, ◌>>=◌, if◌then◌else◌,
}
use libmodbuspp.Slave
use libmodbuspp.Slave.{Client, minus_one, is_open, data_address, pdu_address, access}
use libmodbuspp.BufferedSlave.Block.{Block, write_block}
use libmodbuspp.BufferedSlave.Block.Valid.{Holds, with_elements, store_block-at}
use libmodbuspp.BufferedSlave.Block.Remote.{sent, write_block-open}
use libmodbuspp.BufferedSlave.Tables.{
  BufferedSlave, Table, discrete_input, coil, input_register, holding_register, table_of, put_table,
  as_bool, write_coils, write_discrete_inputs, write_registers, write_input_registers,
}
use libmodbuspp.BufferedSlave.Access.{write_table}
use libmodbuspp.BufferedSlave.RoundTrip.{pdu_address-data_address}
use libmodbuspp.BufferedSlave.Through.{access-selected, element, cached}

-- One value goes by the call for one.
abbrev pub by_length : {W : Type 0} → (ℕ → W × ℤ) → (ℤ → List ℕ → W × ℤ) → List ℕ → W × ℤ
by_length one many [] = many (pos 0) []
by_length one many (x ∷ []) = one x
by_length one many (x ∷ y ∷ ys) = many (pos (length (x ∷ y ∷ ys))) (x ∷ y ∷ ys)

sent-by_length :
    {W : Type 0} (w : W) (m : ℕ) (one : W → ℕ → Outcome (W × ℤ))
    (many : W → List ℕ → ℤ → Outcome (W × ℤ)) (f : ℕ → W × ℤ) (g : ℤ → List ℕ → W × ℤ)
    → ((x : ℕ) → one w x ≡ ok (f x))
    → ((n : ℤ) (xs : List ℕ) → many w xs n ≡ ok (g n xs))
    → (ys : List ℕ) → length ys ≡ m
    → sent w m one many ys ≡ ok (by_length f g ys)
sent-by_length w m one many f g h k [] e = rw⁻¹ e (k (pos 0) [])
sent-by_length w m one many f g h k (x ∷ []) e = rw⁻¹ e (h x)
sent-by_length w m one many f g h k (x ∷ y ∷ ys) e =
    let n = pos (length (x ∷ y ∷ ys)) in
    let two : eqb_ℤ n (pos 1) ≡ false = ground arith in rw⁻¹ e (rw two (k n (x ∷ y ∷ ys)))

-- The one call of libmodbus that a write of a table makes, on the state in which the slave is
-- selected. The inputs are not sent.
abbrev pub device_write : {W : Type 0} → Table → Client W → W → W → ℤ → List ℕ → W × ℤ
device_write discrete_input c w between a ys = (w, pos (length ys))
device_write input_register c w between a ys = (w, pos (length ys))
device_write coil c w between a ys =
    by_length (λ x. c.write_bit between a (if as_bool x then 1 else 0)) (c.write_bits between a) ys
device_write holding_register c w between a ys =
    by_length (c.write_register between a) (c.write_registers between a) ys

module _ {W : Type 0} (c : Client W) (s : BufferedSlave) (xs src : List ℕ) (k n : ℕ) (w : W)
    (inside : k < length xs) (some_asked : 0 < n) (enough : n ≤ length src)
    (opened : is_open s.base ≡ true) (between : W)
    (selects : c.set_slave w s.base.id ≡ (between, pos 0)) where
  -- The values that fit.
  abbrev pub fitting : List ℕ
  fitting = take (min n (length xs - k)) src

  size : length fitting ≡ min n (length xs - k)
  size = omega (arith, length-take (min n (length xs - k)) src, enough)

  selected : (call : W → W × ℤ) → access c s.base w minus_one call ≡ ok (call between)
  selected call = access-selected c s.base w between minus_one call opened selects

  abbrev placed : Table → Outcome (Block × W × ℤ) → Outcome (BufferedSlave × W × ℤ)
  placed t m = m >>= λ r. ok (put_table t s r.0, r.1, r.2)

  block-sends :
      (t : Table) (one : W → ℕ → Outcome (W × ℤ)) (many : W → List ℕ → ℤ → Outcome (W × ℤ))
      (sends : W × ℤ)
      → Holds (table_of t s.map) xs
      → sent w (min n (length xs - k)) one many fitting ≡ ok sends
      → placed t (
          write_block c.set_einval
            (table_of t s.map)
            (is_open s.base)
            one
            many
            w
            (pdu_address s.base (data_address s.base (element c s t k)))
            src
            (pos n))
        ≡ ok (cached c s t xs k fitting, sends.0, sends.1)
  block-sends t one many sends v e =
      let pass : W × ℤ → Outcome (Block × W × ℤ) =
        λ r. ok (with_elements (table_of t s.map) (splice xs k fitting), r.0, r.1) in
      rw (opened, pdu_address-data_address s.base (element c s t k))
        (ap (placed t) (
            write_block-open c.set_einval (table_of t s.map) xs v w k n inside some_asked one many
              src enough)
          ∙ ap (λ q. placed t (q >>= pass)) e)

  -- A write to a whole table while the device is open stores the values that fit, and passes those
  -- of coils and of holding registers to the device, in one call and at the same address; its
  -- result is that of the device. The inputs are stored only.
  pub write_table-sends :
      (t : Table)
      → Holds (table_of t s.map) xs
      → let sends = device_write t c w between (element c s t k) fitting in
        (write_table t c s w (data_address s.base (element c s t k)) src (pos n)
          ≡ ok (cached c s t xs k fitting, sends.0, sends.1))
  unfolding write_coils write_discrete_inputs write_registers write_input_registers
      Slave.write_coils Slave.write_coil Slave.write_registers Slave.write_register
  write_table-sends coil v =
      let at = element c s coil k in
      let addr = data_address s.base at in
      let same = pdu_address-data_address s.base at in
      block-sends coil (λ w x. Slave.write_coil c s.base w addr (as_bool x))
        (λ w xs n. Slave.write_coils c s.base w addr xs n) _ v
        (sent-by_length w _ (λ w x. Slave.write_coil c s.base w addr (as_bool x))
          (λ w xs n. Slave.write_coils c s.base w addr xs n)
          (λ x. c.write_bit between at (if as_bool x then 1 else 0)) (c.write_bits between at)
          (λ x.
            selected (λ w. c.write_bit w (pdu_address s.base addr) (if as_bool x then 1 else 0))
            ∙ ap (λ a. ok (c.write_bit between a (if as_bool x then 1 else 0))) same)
          (λ n xs.
            selected (λ w. c.write_bits w (pdu_address s.base addr) n xs)
            ∙ ap (λ a. ok (c.write_bits between a n xs)) same)
          fitting size)
  write_table-sends holding_register v =
      let at = element c s holding_register k in
      let addr = data_address s.base at in
      let same = pdu_address-data_address s.base at in
      block-sends holding_register (λ w x. Slave.write_register c s.base w addr x)
        (λ w xs n. Slave.write_registers c s.base w addr xs n) _ v
        (sent-by_length w _ (λ w x. Slave.write_register c s.base w addr x)
          (λ w xs n. Slave.write_registers c s.base w addr xs n) (c.write_register between at)
          (c.write_registers between at)
          (λ x.
            selected (λ w. c.write_register w (pdu_address s.base addr) x)
            ∙ ap (λ a. ok (c.write_register between a x)) same)
          (λ n xs.
            selected (λ w. c.write_registers w (pdu_address s.base addr) n xs)
            ∙ ap (λ a. ok (c.write_registers between a n xs)) same)
          fitting size)
  write_table-sends discrete_input v =
      rw (pdu_address-data_address s.base (element c s discrete_input k)) (
        ap (placed discrete_input)
          (store_block-at c.set_einval s.map.input_bits xs v w src k n inside enough)
        ∙ ap (λ l. ok (cached c s discrete_input xs k fitting, w, pos l)) (sym size))
  write_table-sends input_register v =
      rw (pdu_address-data_address s.base (element c s input_register k)) (
        ap (placed input_register)
          (store_block-at c.set_einval s.map.input_registers xs v w src k n inside enough)
        ∙ ap (λ l. ok (cached c s input_register xs k fitting, w, pos l)) (sym size))

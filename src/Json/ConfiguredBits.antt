-- ===== src/Json/ConfiguredBits.antt =====
-- What `setConfig` of src/bufferedslave.cpp puts into a table of bits can be read there.
use libmodbuspp.Base.{
  ℕ, zero, suc, ◌+◌, ◌-◌, ◌*◌, ◌≤◌, ◌<◌, min, ◌≡◌, refl, sym, ap, ◌∙◌, subst, arith, Bool, true,
  false, Option, none, some, List, [], ◌∷◌, length, length-replicate, length-take, replicate, take,
  splice, lt→ltb, ℤ, pos, ◌+ℤ◌, ◌-ℤ◌, ltb_ℤ, eqb_ℤ, to_size, Outcome, ok, ok-injective, ◌>>=◌, ◌++◌,
  drop,
}
use libmodbuspp.Data.{Endian}
use libmodbuspp.Slave.{Slave, Client, is_open, pdu_address, data_address}
use libmodbuspp.BufferedSlave.Block.{Block}
use libmodbuspp.BufferedSlave.Block.Valid.{Holds}
use libmodbuspp.BufferedSlave.Allocate.{
  Allocator, calloc, resize_tab, resized, set_table, set_bit_table,
}
use libmodbuspp.BufferedSlave.Tables.{
  BufferedSlave, Table, discrete_input, coil, table_of, put_table, empty_block, set_block,
  set_coil_block, set_discrete_input_block,
}
use libmodbuspp.BufferedSlave.Access.{read_table, write_table}
use libmodbuspp.BufferedSlave.RoundTrip.{written, address, after_write}
use libmodbuspp.BufferedSlave.RoundTrip.Any.{write_table-read_table}
use libmodbuspp.Json.{Reader, mandatory, get_or_default}
use libmodbuspp.Json
use libmodbuspp.Json.Bits.{get_bit_values, write_bits, write_vector}
use libmodbuspp.Json.Blocks.{write_block_values, set_config_block}

-- The tables of bits.
abbrev pub bit_table : Bool → Table
bit_table true = coil
bit_table false = discrete_input

data_address-pdu_address :
    (s : Slave) (a : ℤ) (k : ℕ) → data_address s (pdu_address s a +ℤ pos k) ≡ a +ℤ pos k
unfolding data_address pdu_address ◌+ℤ◌ ◌-ℤ◌
data_address-pdu_address s a k = ground arith

module _ (al : Allocator) (s : BufferedSlave) (q : ℕ) (start : ℤ) (some_asked : 0 < q)
    (granted : al.grants q ≡ true) where
  -- The table of `q` zeros.
  abbrev pub zeros : Block
  zeros = record { nb = pos q; start = pdu_address s.base start; tab = some (replicate q 0) }

  zeros-Holds : Holds zeros (replicate q 0)
  zeros-Holds = record { held = refl; sized = ap pos (sym (length-replicate {A = ℕ} q 0)) }

  set_table-new : set_table al 1 0 s.base empty_block start (pos q) ≡ ok (zeros, pos q)
  unfolding set_table resize_tab resized calloc
  set_table-new =
      let given : al.grants (q * 1) ≡ true = ap al.grants (omega arith) ∙ granted in
      let some_new : eqb_ℤ (pos q) (pos 0) ≡ false = ground arith in
      let other : eqb_ℤ (pos 0) (pos q) ≡ false = ground arith in rw (some_new, other, given) refl

  -- The slave with that table.
  abbrev pub with_zeros : Bool → BufferedSlave
  with_zeros b = put_table (bit_table b) s zeros

  set_block-new :
      (b : Bool)
      → table_of (bit_table b) s.map ≡ empty_block
      → ltb_ℤ start (pos 0) ≡ false
      → set_block al s (bit_table b) (pos q) start ≡ ok (with_zeros b, pos q)
  unfolding set_block set_coil_block set_discrete_input_block set_bit_table
  set_block-new true e h = rw h (
      ap
        (λ b. set_table al 1 (to_size b.nb) s.base b start (pos q) >>= λ r.
          ok (put_table coil s r.0, r.1))
        e
      ∙ ap (λ m. m >>= λ (r : Block × ℤ). ok (put_table coil s r.0, r.1)) set_table-new)
  set_block-new false e h = rw h (
      ap
        (λ b. set_table al 1 (to_size b.nb) s.base b start (pos q) >>= λ r.
          ok (put_table discrete_input s r.0, r.1))
        e
      ∙ ap (λ m. m >>= λ (r : Block × ℤ). ok (put_table discrete_input s r.0, r.1)) set_table-new)

module _ (al : Allocator) (s : BufferedSlave) (q : ℕ) (start : ℤ) (some_asked : 0 < q)
    (granted : al.grants q ≡ true) where
  with_zeros-Holds :
      (b : Bool)
      → Holds
          (table_of (bit_table b) (with_zeros al s q start some_asked granted b).map)
          (replicate q 0)
  with_zeros-Holds true = zeros-Holds al s q start some_asked granted
  with_zeros-Holds false = zeros-Holds al s q start some_asked granted

  with_zeros-address :
      {W : Type 0} (c : Client W) (w : W) (bits : List ℕ) (k : ℕ) (b : Bool)
      → address c
          (with_zeros al s q start some_asked granted b)
          w
          (replicate q 0)
          bits
          k
          (length bits)
          (bit_table b)
        ≡ start +ℤ pos k
  with_zeros-address c w bits k true = data_address-pdu_address s.base start k
  with_zeros-address c w bits k false = data_address-pdu_address s.base start k

  with_zeros-base : (b : Bool) → (with_zeros al s q start some_asked granted b).base ≡ s.base
  with_zeros-base b = refl

drop-replicate : (n q : ℕ) → drop n (replicate q 0) ≡ replicate {A = ℕ} (q - n) 0
drop-replicate zero q = let e : q ≡ q - 0 = omega arith in ap (λ i. replicate i 0) e
drop-replicate (suc n) zero =
    let e : 0 ≡ 0 - suc n = omega arith in ap (λ i. replicate {A = ℕ} i 0) e
drop-replicate (suc n) (suc q) =
    let e : q - n ≡ suc q - suc n = omega arith in drop-replicate n q ∙ ap (λ i. replicate i 0) e

take-replicate : (k q : ℕ) → k ≤ q → take k (replicate q 0) ≡ replicate {A = ℕ} k 0
take-replicate zero q h = refl
take-replicate (suc k) zero h = absurd (omega (arith, h))
take-replicate (suc k) (suc q) h = ap (λ xs. 0 ∷ xs) (take-replicate k q (omega arith))

-- `q` zeros with the bits from `k` on, as far as they fit.
abbrev pub among_zeros : ℕ → ℕ → List ℕ → List ℕ
among_zeros q k bits =
    let m = min (length bits) (q - k) in replicate k 0 ++ (take m bits ++ replicate (q - (k + m)) 0)

written-zeros :
    (q k : ℕ) (bits : List ℕ)
    → k ≤ q
    → written (replicate q 0) k (length bits) bits ≡ among_zeros q k bits
written-zeros q k bits h =
    let m = min (length bits) (q - k) in
    let size : length {A = ℕ} (replicate q 0) ≡ q = length-replicate {A = ℕ} q 0 in
    let taken : length (take m bits) ≡ m = omega (arith, length-take m bits) in
    ap (λ n. splice (replicate q 0) k (take (min (length bits) (n - k)) bits)) size
    ∙ ap (λ xs. xs ++ (take m bits ++ drop (k + length (take m bits)) (replicate q 0)))
        (take-replicate k q h)
    ∙ ap (λ xs. replicate k 0 ++ (take m bits ++ xs))
        (ap (λ i. drop (k + i) (replicate q 0)) taken ∙ drop-replicate (k + m) q)

-- A block of bits in the configuration, with the addresses of the table and of its values.
abbrev pub bit_block :
    {J : Type 0} → Bool → ℕ → Option ℤ → Option ℤ → Option Endian → List J → Json.Block J
bit_block b q start values_address endian values = record {
  table = some (bit_table b);
  quantity = some (pos q);
  starting_address = start;
  data_type = none;
  endian = endian;
  values_address = values_address;
  values = some values;
}

module _ {J W : Type 0} (json : Reader J) (c : Client W) (s : BufferedSlave) (w : W) (b : Bool)
    (q : ℕ) (at to : Option ℤ) (endian : Option Endian) (values : List J) (bits : List ℕ) where
  write_bits-sends :
      get_bit_values json (pos q) values ≡ ok bits
      → 0 < length values
      → 0 < length bits
      → 0 < q
      → write_bits json c s w (bit_block b q at to endian values)
        ≡ write_table
            (bit_table b)
            c
            s
            w
            (get_or_default to (data_address s.base (pos 0)))
            bits
            (pos (length bits))
  unfolding write_bits
  write_bits-sends e v h p =
      let wanted : ltb_ℤ (pos 0) (pos q) ≡ true = ground arith in
      rw (lt→ltb 0 (length values) v, wanted, e, lt→ltb 0 (length bits) h) (sent b)
    where
      sent :
          (b : Bool)
          → write_vector json c s w
              (bit_block b q at to endian values)
              (bit_table b)
              (get_or_default to (data_address s.base (pos 0)))
              bits
            ≡ write_table
                (bit_table b)
                c
                s
                w
                (get_or_default to (data_address s.base (pos 0)))
                bits
                (pos (length bits))
      sent true = refl
      sent false = refl

values-some :
    {J : Type 0} (json : Reader J) (q : ℕ) (values : List J) (bits : List ℕ)
    → get_bit_values json (pos q) values ≡ ok bits
    → 0 < length bits
    → 0 < length values
unfolding get_bit_values
values-some json q [] bits e h = absurd (omega (arith, h, ap length (ok-injective e)))
values-some json q (v ∷ values) bits e h = omega arith

module _ {J W : Type 0} (json : Reader J) (al : Allocator) (c : Client W) (s : BufferedSlave)
    (w : W) (b : Bool) (q : ℕ) (at to : Option ℤ) (endian : Option Endian) (values : List J)
    (bits : List ℕ) (k : ℕ) (some_asked : 0 < q) (granted : al.grants q ≡ true) where
  -- The first address of the table and that of the values: those of the configuration, or else the
  -- first of a slave.
  abbrev pub first_address : ℤ
  first_address = get_or_default at (data_address s.base (pos 0))

  abbrev pub values_at : ℤ
  values_at = get_or_default to (data_address s.base (pos 0))

  -- The slave once the block is configured.
  abbrev pub configured : BufferedSlave
  configured =
      after_write c (with_zeros al s q first_address some_asked granted b) w (replicate q 0) bits k
        (length bits) (bit_table b)

  -- On a slave whose device is not open, a block of the configuration gives an empty table of bits
  -- its size, where the allocator grants it, and puts the values that `getBitValues` makes at
  -- `values-address`, if that is the `k`-th address of the table: the table holds the values that
  -- fit from there on, and zeros elsewhere, and a read at that address returns them.
  pub set_config_block-read :
      is_open s.base ≡ false
      → table_of (bit_table b) s.map ≡ empty_block
      → ltb_ℤ first_address (pos 0) ≡ false
      → values_at ≡ first_address +ℤ pos k
      → k < q
      → get_bit_values json (pos q) values ≡ ok bits
      → 0 < length bits
      → let m = min (length bits) (q - k) in
        (set_config_block json al c s w (bit_block b q at to endian values) ≡ ok (configured, w))
        × (read_table (bit_table b) c configured w values_at (pos (length bits))
            ≡ ok (configured, w, pos m, take m bits))
        × Holds (table_of (bit_table b) configured.map) (among_zeros q k bits)
  unfolding set_config_block
  set_config_block-read closed empty nonneg there inside e h =
      let s1 = with_zeros al s q first_address some_asked granted b in
      let xs : List ℕ = replicate q 0 in
      let size : length xs ≡ q = length-replicate {A = ℕ} q 0 in
      let n = length bits in
      let held = with_zeros-Holds al s q first_address some_asked granted b in
      let trip =
        write_table-read_table c s1 w xs bits k n (bit_table b) closed held
          (omega (arith, size, inside)) (omega arith) in
      let at_values : values_at
          ≡ address c s1 w (replicate q 0) bits k (length bits) (bit_table b) =
        there ∙ sym (with_zeros-address al s q first_address some_asked granted c w bits k b) in
      let wrote =
        write_bits-sends json c s1 w b q at to endian values bits e
          (values-some json q values bits e h) h some_asked
        ∙ ap (λ a. write_table (bit_table b) c s1 w a bits (pos n)) at_values
        ∙ trip.0 in
      (
        ap (λ m. m >>= filled)
              (set_block-new al s q first_address some_asked granted b empty nonneg)
            ∙ chosen b
            ∙ ap (λ m. m >>= kept) wrote,
        ap (λ a. read_table (bit_table b) c configured w a (pos n)) at_values
            ∙ trip.1
            ∙ ap (λ i. let m = min n (i - k) in ok (configured, w, pos m, take m bits)) size,
        subst (Holds (table_of (bit_table b) configured.map))
            (written-zeros q k bits (omega (arith, inside))) trip.2,
      )
    where
      kept : BufferedSlave × W × ℤ → Outcome (BufferedSlave × W)
      kept r = ok (r.0, r.1)

      filled : BufferedSlave × ℤ → Outcome (BufferedSlave × W)
      filled r =
          write_block_values json c r.0 w (bit_block b q at to endian values) (bit_table b) >>= kept

      chosen :
          (t : Bool)
          → let s1 = with_zeros al s q first_address some_asked granted b in
            let block = bit_block b q at to endian values in
            (write_block_values json c s1 w block (bit_table t) >>= kept)
            ≡ (write_bits json c s1 w block >>= kept)
      chosen true = refl
      chosen false = refl

-- ===== src/BufferedSlave/Memory.antt =====
-- The tables of a slave as memories: what a write makes of each address.
use libmodbuspp.Base.{
  ℕ, ◌+◌, ◌-◌, ◌≤◌, ◌<◌, ◌≡◌, ◌≢◌, refl, ap, ◌∙◌, arith, false, ◌&&◌, Bool-cases, inl, inr, Option,
  none, some, List, ◌++◌, length, take, drop, splice, get_elem?, get_elem?-lt, get_elem?-ge,
  get_elem?-append_left, get_elem?-append_right, get_elem?-take, get_elem?-splice_before,
  get_elem?-splice_after, length-take, min, leb, ltb, if◌then◌else◌, pos, ok,
}
use libmodbuspp.Slave.{Client, is_open}
use libmodbuspp.BufferedSlave.Block.Valid.{Holds}
use libmodbuspp.BufferedSlave.Tables.{
  BufferedSlave, Table, discrete_input, coil, input_register, holding_register, table_of,
}
use libmodbuspp.BufferedSlave.Access.{write_table}
use libmodbuspp.BufferedSlave.RoundTrip.{
  written, length-written, address, after_write, write_coils-read_coils,
  write_discrete_inputs-read_discrete_inputs, write_registers-read_registers,
  write_input_registers-read_input_registers,
}

-- A memory with `n` values of `src` at `k` and the places behind it, where it has such places.
abbrev pub updated : (ℕ → Option ℕ) → ℕ → ℕ → List ℕ → ℕ → Option ℕ
updated f k n src j = elim (f j) [
  | none ↦ none
  | some x ↦ if leb k j && ltb j (k + n) then get_elem? src (j - k) else some x
]

module _ (xs src : List ℕ) (k n j : ℕ) where
  get_elem?-splice_inside :
      (ys : List ℕ)
      → k ≤ length xs
      → k ≤ j
      → j < k + length ys
      → get_elem? (splice xs k ys) j ≡ get_elem? ys (j - k)
  get_elem?-splice_inside ys h a b =
      let at : j ≡ length (take k xs) + (j - k) = omega (arith, length-take k xs) in
      ap (get_elem? (splice xs k ys)) at
      ∙ get_elem?-append_right (take k xs) (ys ++ drop (k + length ys) xs) (j - k)
      ∙ get_elem?-append_left ys (drop (k + length ys) xs) (j - k) (omega arith)

  get_elem?-written :
      k < length xs
      → n ≤ length src
      → get_elem? (written xs k n src) j ≡ updated (get_elem? xs) k n src j
  get_elem?-written h l =
      let m : ℕ = min n (length xs - k) in
      let ys = take m src in
      let size : length ys ≡ m = omega (arith, length-take m src) in
      elim (Bool-cases (ltb j (length xs))) [
        | inr e ↦
            let out : length xs ≤ j = ground arith in
            rw (updated, get_elem?-ge xs j out)
              (get_elem?-ge (written xs k n src) j (omega (arith, length-written xs k n src h l)))
        | inl e ↦
            let (x, at) = get_elem?-lt xs j (ground arith) in
            elim (Bool-cases (leb k j && ltb j (k + n))) [
              | inl f ↦
                  let a : k ≤ j = ground arith in
                  let b : j < k + m = ground arith in
                  rw (updated, at, f)
                    (get_elem?-splice_inside ys (omega arith) a (omega (arith, size))
                      ∙ get_elem?-take m src (j - k) (omega arith))
              | inr f ↦ rw (updated, at, f) (outside ys size f ∙ at)
            ]
      ]
    where
      outside :
          (ys : List ℕ)
          → length ys ≡ min n (length xs - k)
          → leb k j && ltb j (k + n) ≡ false
          → get_elem? (splice xs k ys) j ≡ get_elem? xs j
      outside ys size f = elim (Bool-cases (ltb j k)) [
        | inl b ↦ get_elem?-splice_before xs k ys j (ground arith) (omega arith)
        | inr b ↦
            let after : k + n ≤ j = ground arith in
            get_elem?-splice_after xs k ys j (omega (arith, size)) (omega arith)
      ]

module _ {W : Type 0} (c : Client W) (s : BufferedSlave) (w : W) (xs src : List ℕ) (k n : ℕ) where
  -- What a write of a table returns, and the table that it leaves.
  abbrev pub Refines : Table → Type 0
  Refines t =
      (s' : BufferedSlave) × (ys : List ℕ) × (write_table t c s w (address c s w xs src k n t) src
          (pos n)
        ≡ ok (s', w, pos (min n (length xs - k))))
      × Holds (table_of t s'.map) ys
      × ((j : ℕ) → get_elem? ys j ≡ updated (get_elem? xs) k n src j)
      × ((u : Table) → u ≢ t → table_of u s'.map ≡ table_of u s.map)

  others :
      (t u : Table) → u ≢ t → table_of u (after_write c s w xs src k n t).map ≡ table_of u s.map
  others discrete_input discrete_input h = absurd (h refl)
  others discrete_input coil h = refl
  others discrete_input input_register h = refl
  others discrete_input holding_register h = refl
  others coil discrete_input h = refl
  others coil coil h = absurd (h refl)
  others coil input_register h = refl
  others coil holding_register h = refl
  others input_register discrete_input h = refl
  others input_register coil h = refl
  others input_register input_register h = absurd (h refl)
  others input_register holding_register h = refl
  others holding_register discrete_input h = refl
  others holding_register coil h = refl
  others holding_register input_register h = refl
  others holding_register holding_register h = absurd (h refl)

  -- Each table of a slave whose device is not open is a memory: a write puts the values that fit at
  -- their addresses, returns their number, and changes no other address, no other table and nothing
  -- outside.
  pub write_table-Refines :
      (t : Table)
      → is_open s.base ≡ false
      → Holds (table_of t s.map) xs
      → k < length xs
      → n ≤ length src
      → Refines t
  write_table-Refines t closed v h l = refined t v
    where
      at : (j : ℕ) → get_elem? (written xs k n src) j ≡ updated (get_elem? xs) k n src j
      at j = get_elem?-written xs src k n j h l

      refined : (t : Table) → Holds (table_of t s.map) xs → Refines t
      refined coil v =
          let r = write_coils-read_coils c s w xs src k n closed v h l in
          (_, _, r.0, r.2, at, others coil)
      refined discrete_input v =
          let r = write_discrete_inputs-read_discrete_inputs c s w xs src k n closed v h l in
          (_, _, r.0, r.2, at, others discrete_input)
      refined holding_register v =
          let r = write_registers-read_registers c s w xs src k n closed v h l in
          (_, _, r.0, r.2, at, others holding_register)
      refined input_register v =
          let r = write_input_registers-read_input_registers c s w xs src k n closed v h l in
          (_, _, r.0, r.2, at, others input_register)

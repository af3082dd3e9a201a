-- ===== src/BufferedSlave/Block.antt =====
-- One table of a `modbus_mapping_t`, and the accesses that the four tables of a `BufferedSlave`
-- have in common (src/bufferedslave.cpp). A table of bits has one byte for each.
pub mod Valid
pub mod Whole
pub mod Remote
pub mod Safe
pub mod SafeWrite
use libmodbuspp.Base.{
  ℕ, ◌+◌, ◌≤◌, Bool, true, false, ◌&&◌, Option, none, some, List, [], ◌∷◌, length, take, drop,
  splice, leb, if◌then◌else◌, ◌==◌, ℤ, pos, ◌-ℤ◌, ◌+ℤ◌, leb_ℤ, ltb_ℤ, eqb_ℤ, min_ℤ, to_size,
  Outcome, ok, fault, ◌>>=◌, deref,
}
use libmodbuspp.Slave.{Reply, minus_one}

-- `nb_…`, `start_…` and `tab_…`; the pointer may be null.
pub record Block : Type 0 where
  pub nb : ℤ
  pub start : ℤ
  pub tab : Option (List ℕ)

-- `pduAddr >= start && pduAddr < start + nb`
unfoldable pub in_block : Block → ℤ → Bool
in_block b addr = leb_ℤ b.start addr && ltb_ℤ addr (b.start +ℤ b.nb)

-- `std::min (nb, nb_… - offset)`
unfoldable pub clipped : Block → ℤ → ℤ → ℤ
clipped b offset nb = min_ℤ nb (b.nb -ℤ offset)

-- `memcpy (dest, &tab[offset], nb * sizeof (dest[0]))`: what is copied.
unfoldable pub copy_out : Option (List ℕ) → ℤ → ℤ → Outcome (List ℕ)
copy_out none offset nb = fault
copy_out (some xs) offset nb =
    if leb (to_size offset + to_size nb) (length xs)
    then ok (take (to_size nb) (drop (to_size offset) xs))
    else fault

-- Storing values from `&tab[offset]` on; storing none touches nothing.
unfoldable pub copy_in : Option (List ℕ) → ℤ → List ℕ → Outcome (Option (List ℕ))
copy_in tab offset [] = ok tab
copy_in none offset (x ∷ ys) = fault
copy_in (some xs) offset (x ∷ ys) =
    if leb (to_size offset + length (x ∷ ys)) (length xs)
    then ok (some (splice xs (to_size offset) (x ∷ ys)))
    else fault

-- `memcpy (&tab[offset], src, nb * sizeof (dest[0]))`, for a `src` that holds these values.
unfoldable pub copy_from : Option (List ℕ) → ℤ → List ℕ → ℤ → Outcome (Option (List ℕ))
copy_from none offset src nb = fault
copy_from (some xs) offset src nb =
    if leb (to_size nb) (length src) && leb (to_size offset + to_size nb) (length xs)
    then ok (some (splice xs (to_size offset) (take (to_size nb) src)))
    else fault

-- `dest[0]`
abbrev pub first : List ℕ → Outcome ℕ
first [] = fault
first (x ∷ xs) = ok x

module _ {W : Type 0} where
  -- A read returns the table, the state outside, the `int`, and what goes to `dest`.
  unfoldable pub read_local : Block → W → ℤ → ℤ → Outcome (Block × W × ℤ × List ℕ)
  read_local b w offset n = do xs ← copy_out b.tab offset n; ok (b, w, n, xs)

  -- The device stores into the table, also where it then reports an error.
  unfoldable pub read_remote :
      Block → (W → ℤ → Outcome (W × Reply)) → W → ℤ → ℤ → Outcome (Block × W × ℤ × List ℕ)
  read_remote b remote w offset n = do
    (w', r) ← remote w n
    tab' ← copy_in b.tab offset r.stored
    let b' = record b { tab = tab' }
    if ltb_ℤ r.rc (pos 0) then ok (b', w', r.rc, []) else read_local b' w' offset n

  -- One value goes to the device by `one`, any other number by `many`.
  unfoldable pub write_remote :
      Block
      → (W → ℕ → Outcome (W × ℤ))
      → (W → List ℕ → ℤ → Outcome (W × ℤ))
      → W
      → ℤ
      → ℤ
      → Outcome (Block × W × ℤ)
  write_remote b one many w offset n = do
    xs ← copy_out b.tab offset n
    let single = do x ← first xs; (w', rc) ← one w x; ok (b, w', rc)
    let several = do (w', rc) ← many w xs n; ok (b, w', rc)
    if eqb_ℤ n (pos 1) then single else several

module _ {W : Type 0} (set_einval : W → W) where
  -- The body of `readCoils` and its kin: `remote` asks the device for so many values.
  unfoldable pub read_block :
      Block → Bool → (W → ℤ → Outcome (W × Reply)) → W → ℤ → ℤ → Outcome (Block × W × ℤ × List ℕ)
  read_block b opened remote w addr nb =
      let offset = addr -ℤ b.start in
      let n = clipped b offset nb in
      if in_block b addr
      then (if opened then read_remote b remote w offset n else read_local b w offset n)
      else ok (b, set_einval w, minus_one, [])

  -- The body of `writeCoils` and `writeRegisters`.
  unfoldable pub write_block :
      Block
      → Bool
      → (W → ℕ → Outcome (W × ℤ))
      → (W → List ℕ → ℤ → Outcome (W × ℤ))
      → W
      → ℤ
      → List ℕ
      → ℤ
      → Outcome (Block × W × ℤ)
  write_block b opened one many w addr src nb =
      let offset = addr -ℤ b.start in
      let n = clipped b offset nb in
      let stored : Outcome (Block × W × ℤ) =
        (copy_from b.tab offset src n >>= λ tab'.
        let b' = record b { tab = tab' } in
        if opened then write_remote b' one many w offset n else ok (b', w, n)) in
      if in_block b addr then stored else ok (b, set_einval w, minus_one)

  -- The body of `writeDiscreteInputs` and `writeInputRegisters`, which never ask the device.
  unfoldable pub store_block : Block → W → ℤ → List ℕ → ℤ → Outcome (Block × W × ℤ)
  store_block b w addr src nb =
      let offset = addr -ℤ b.start in
      let n = clipped b offset nb in
      let stored : Outcome (Block × W × ℤ) =
        (copy_from b.tab offset src n >>= λ tab'. ok (record b { tab = tab' }, w, n)) in
      if in_block b addr then stored else ok (b, set_einval w, minus_one)

-- ===== src/Json/Bits.antt =====
-- `getBitValues` and `writeBits` of src/bufferedslave.cpp.
pub mod Bounds
use libmodbuspp.Base.{
  ℕ, zero, suc, ◌+◌, ◌-◌, ◌≤◌, ◌<◌, ◌≡◌, refl, arith, Bool, true, false, not, ◌&&◌, ◌||◌, Option,
  none, some, List, [], ◌∷◌, ◌++◌, length, min, ltb, ◌==◌, if◌then◌else◌, ℤ, pos, ◌-ℤ◌, ltb_ℤ,
  leb_ℤ, eqb_ℤ, min_ℤ, pos_part, Outcome, ok, thrown, ◌>>=◌, invalid_argument, json_error,
}
use libmodbuspp.Request.{test_bit}
use libmodbuspp.Slave.{Client, data_address}
use libmodbuspp.BufferedSlave.Tables.{
  BufferedSlave, Table, coil, write_coils, write_discrete_inputs,
}
use libmodbuspp.Json.{Reader, Block, mandatory, get_or_default}

-- So many bits of a byte, from bit `i` on.
abbrev pub bits_from : ℕ → ℕ → ℕ → List ℕ
bits_from zero i byte = []
bits_from (suc m) i byte = (if test_bit byte i then 1 else 0) ∷ bits_from m (i + 1) byte

abbrev pub bit_of_int : Option ℤ → Outcome (List ℕ)
bit_of_int none = thrown json_error
bit_of_int (some i) =
    if not (eqb_ℤ i (pos 0)) && not (eqb_ℤ i (pos 1))
    then thrown invalid_argument
    else ok ((if eqb_ℤ i (pos 0) then 0 else 1) ∷ [])

module _ {J : Type 0} (json : Reader J) where
  -- The bits that an element of `values` stands for, when `nmemb` are wanted.
  unfoldable pub bits_of_string : ℤ → List ℕ → Outcome (List ℕ)
  bits_of_string nmemb str = json.stoull str >>= λ r.
      if ltb r.1 (length str) || ltb 255 r.0
      then thrown invalid_argument
      else ok (bits_from (pos_part (min_ℤ nmemb (pos 8))) 0 r.0)

  unfoldable pub bit_of_number : J → Outcome (List ℕ)
  bit_of_number v = elim (json.to_bool v) [
    | some b ↦ ok ((if b then 1 else 0) ∷ [])
    | none ↦ bit_of_int (json.to_int v)
  ]

  -- The values that are appended to `data`.
  unfoldable pub get_bit_values : ℤ → List J → Outcome (List ℕ)
  get_bit_values nmemb [] = ok []
  get_bit_values nmemb (v ∷ values) =
      (if json.is_string v then bits_of_string nmemb (json.text v) else bit_of_number v) >>= λ bits.
      let left = nmemb -ℤ pos (length bits) in
      let rest = (get_bit_values left values >>= λ more. ok (bits ++ more)) in
      if leb_ℤ left (pos 0) then ok bits else rest

  module _ {W : Type 0} (c : Client W) (s : BufferedSlave) (w : W) (block : Block J) where
    abbrev pub write_vector : Table → ℤ → List ℕ → Outcome (BufferedSlave × W × ℤ)
    write_vector t addr vect = elim t [
      | coil ↦ write_coils c s w addr vect (pos (length vect))
      | other ↦ write_discrete_inputs c s w addr vect (pos (length vect))
    ]

    abbrev pub write_some_bits : ℤ → List J → Outcome (BufferedSlave × W × ℤ)
    write_some_bits nmemb values = mandatory block.table >>= λ t.
        let addr = get_or_default block.values_address (data_address s.base (pos 0)) in
        get_bit_values nmemb values >>= λ vect.
        if ltb 0 (length vect) then write_vector t addr vect else ok (s, w, pos 0)

    unfoldable pub write_bits : Outcome (BufferedSlave × W × ℤ)
    write_bits = mandatory block.quantity >>= λ nmemb. elim block.values [
      | none ↦ ok (s, w, pos 0)
      | some values ↦
          if ltb 0 (length values) && ltb_ℤ (pos 0) nmemb
          then write_some_bits nmemb values
          else ok (s, w, pos 0)
    ]

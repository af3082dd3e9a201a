-- ===== src/Json/Numbers.antt =====
-- `strToT` of include/modbuspp/data.h on the integer types, and `getDataValues` of src/json_p.h.
use libmodbuspp.Base.{
  ℕ, zero, suc, ◌-◌, ◌*◌, ◌/◌, ◌%◌, ◌^◌, ◌<◌, ◌≡◌, refl, arith, Bool, true, false, List, [], ◌∷◌,
  length, replicate, ltb, if◌then◌else◌, ℤ, to_size, Outcome, ok, thrown, ◌>>=◌, out_of_range,
  invalid_argument,
}
use libmodbuspp.Data.{Data, Endian, set_endianness, assign}
use libmodbuspp.Json.{
  Reader, DataEnum, uint16, int16, uint32, int32, uint64, int64, size_of, converted,
}

abbrev pub is_signed : DataEnum → Bool
is_signed t = elim t [ int16 ↦ true | int32 ↦ true | int64 ↦ true | _ ↦ false ]

-- The memory of a number, its low byte first.
abbrev pub memory : ℕ → ℕ → List ℕ
memory zero n = []
memory (suc size) n = n % 256 ∷ memory size (n / 256)

-- `if (idx < str.size ()) throw`
abbrev pub all_read : List ℕ → ℕ → ℕ → Outcome ℕ
all_read str idx v = if ltb idx (length str) then thrown invalid_argument else ok v

module _ {J : Type 0} (json : Reader J) where
  -- `T` has so many bits. A cast keeps the low ones.
  unfoldable pub str_to_unsigned : ℕ → List ℕ → Outcome ℕ
  str_to_unsigned bits str = json.stoull str >>= λ r.
      if ltb (2 ^ bits - 1) r.0 then thrown out_of_range else all_read str r.1 (r.0 % 2 ^ bits)

  -- The result of `stoll` is kept in an `unsigned long long`, and so are the bounds of `T` when they
  -- are compared with it.
  unfoldable pub str_to_signed : ℕ → List ℕ → Outcome ℕ
  str_to_signed bits str = json.stoll str >>= λ r.
      let ll = to_size r.0 in
      let max = 2 ^ (bits - 1) - 1 in
      let lowest = 2 ^ 64 - 2 ^ (bits - 1) in
      if ltb max ll
      then thrown out_of_range
      else (if ltb ll lowest then thrown out_of_range else all_read str r.1 (ll % 2 ^ bits))

  unfoldable pub str_to_t : DataEnum → List ℕ → Outcome ℕ
  str_to_t t str =
      if is_signed t then str_to_signed (8 * size_of t) str else str_to_unsigned (8 * size_of t) str

  -- `catch (...) { d = 0; }`
  abbrev pub or_zero : Outcome ℕ → ℕ
  or_zero (ok n) = n
  or_zero other = 0

  -- A value that `strToT` stores is not in the registers yet; what `operator=` stores is.
  abbrev pub of_string : Data → DataEnum → List ℕ → Data
  of_string d t str = elim (str_to_t t str) [
    | ok n ↦ record d { value = memory (size_of t) n }
    | other ↦ assign d (memory (size_of t) 0)
  ]

  unfoldable pub get_data_values : DataEnum → Endian → List J → Outcome (List Data)
  get_data_values t e [] = ok []
  get_data_values t e (v ∷ values) =
      let zero_value = replicate (size_of t) 0 in
      let d =
        set_endianness (record { value = zero_value; endian = Endian.big_big; registers = [] }) e in
      let rest = get_data_values t e values in
      let read : Outcome Data =
        (converted (json.number v (size_of t)) >>= λ bytes. ok (assign d bytes)) in
      (if json.is_string v then ok (of_string d t (json.text v)) else read) >>= λ d'.
      rest >>= λ ds. ok (d' ∷ ds)

  refused :
      (max lowest ll : ℕ) (rest : Outcome ℕ)
      → max < lowest
      → (if ltb max ll
          then thrown out_of_range
          else (if ltb ll lowest then thrown out_of_range else rest))
        ≡ thrown out_of_range
  refused max lowest ll rest h = ground arith

  -- A string is never taken as a number of a signed type, whatever number it spells.
  pub str_to_t-throws :
      (t : DataEnum) (str : List ℕ) (n : ℤ) (idx : ℕ)
      → is_signed t ≡ true
      → json.stoll str ≡ ok (n, idx)
      → str_to_t t str ≡ thrown out_of_range
  unfolding str_to_t str_to_signed size_of
  str_to_t-throws int16 str n idx h e =
      rw e (refused 0x7fff 0xffff_ffff_ffff_8000 (to_size n) _ (omega arith))
  str_to_t-throws int32 str n idx h e =
      rw e (refused 0x7fff_ffff 0xffff_ffff_8000_0000 (to_size n) _ (omega arith))
  str_to_t-throws int64 str n idx h e =
      rw e (refused 0x7fff_ffff_ffff_ffff 0x8000_0000_0000_0000 (to_size n) _ (omega arith))
  str_to_t-throws uint16 str n idx h e = absurd (ground arith)
  str_to_t-throws uint32 str n idx h e = absurd (ground arith)
  str_to_t-throws uint64 str n idx h e = absurd (ground arith)

  -- A value of a signed type that the configuration gives as a string is set to zero, whatever
  -- number the string spells.
  pub of_string-zero :
      (d : Data) (t : DataEnum) (str : List ℕ) (n : ℤ) (idx : ℕ)
      → is_signed t ≡ true
      → json.stoll str ≡ ok (n, idx)
      → of_string d t str ≡ assign d (memory (size_of t) 0)
  of_string-zero d t str n idx h e = rw (of_string, str_to_t-throws t str n idx h e) refl

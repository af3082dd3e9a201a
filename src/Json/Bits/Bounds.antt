-- ===== src/Json/Bits/Bounds.antt =====
-- How many bits a block gets, and what they are.
use libmodbuspp.Base.{
  ℕ, zero, suc, ◌+◌, ◌≤◌, ◌<◌, ◌≡◌, refl, arith, Bool, true, false, ◌||◌, Option, none, some, List,
  [], ◌∷◌, ◌++◌, length, ltb, if◌then◌else◌, ℤ, pos, negsuc, ◌-ℤ◌, -ℤ_parts, leb_ℤ, eqb_ℤ, not,
  ◌&&◌, min_ℤ, pos_part, All, All-append, length-append, ok, Ensures, Ensures-ok, Ensures-thrown,
  Ensures-if, Ensures-test, Ensures-then, Ensures-bind,
}
use libmodbuspp.Request.{test_bit}
use libmodbuspp.Json.{Reader}
use libmodbuspp.Json.Bits.{bits_from, bits_of_string, bit_of_int, bit_of_number, get_bit_values}

-- At most `nmemb` values, each of them 0 or 1.
abbrev pub IsBits : ℤ → List ℕ → Type 0
IsBits nmemb xs = All (λ x. x < 2) xs × (length xs ≤ pos_part nmemb)

All-bits_from : (m i byte : ℕ) → All (λ x. x < 2) (bits_from m i byte)
All-bits_from zero i byte = tt
All-bits_from (suc m) i byte = (small (test_bit byte i), All-bits_from m (i + 1) byte)
  where
    small : (b : Bool) → (if b then 1 else 0) < 2
    small true = omega arith
    small false = omega arith

length-bits_from : (m i byte : ℕ) → length (bits_from m i byte) ≡ m
length-bits_from zero i byte = refl
length-bits_from (suc m) i byte = omega (arith, length-bits_from m (i + 1) byte)

IsBits-append :
    (nmemb : ℤ) (xs ys : List ℕ)
    → IsBits nmemb xs
    → leb_ℤ (nmemb -ℤ pos (length xs)) (pos 0) ≡ false
    → IsBits (nmemb -ℤ pos (length xs)) ys
    → IsBits nmemb (xs ++ ys)
IsBits-append nmemb xs ys h f k = (
  All-append (λ x. x < 2) xs ys h.0 k.0,
  ground (arith, length-append xs ys, -ℤ_parts nmemb (pos (length xs)), h.1, k.1),
)

min_ℤ-le : (n : ℤ) → pos_part (min_ℤ n (pos 8)) ≤ pos_part n
min_ℤ-le (pos n) = ground arith
min_ℤ-le (negsuc n) = ground arith

one_bit : (nmemb : ℤ) (x : ℕ) → 0 < pos_part nmemb → x < 2 → IsBits nmemb (x ∷ [])
one_bit nmemb x h l = ((l, tt), omega arith)

of_int-IsBits :
    (nmemb : ℤ) (o : Option ℤ) → 0 < pos_part nmemb → Ensures (IsBits nmemb) (bit_of_int o)
of_int-IsBits nmemb none h = Ensures-thrown
of_int-IsBits nmemb (some i) h =
    Ensures-if (not (eqb_ℤ i (pos 0)) && not (eqb_ℤ i (pos 1))) Ensures-thrown
      (Ensures-ok (one_bit nmemb (if eqb_ℤ i (pos 0) then 0 else 1) h (ground arith)))

module _ {J : Type 0} (json : Reader J) where
  bits_of_string-IsBits :
      (nmemb : ℤ) (str : List ℕ) → Ensures (IsBits nmemb) (bits_of_string json nmemb str)
  unfolding bits_of_string
  bits_of_string-IsBits nmemb str = Ensures-then (json.stoull str) λ r.
      Ensures-if (ltb r.1 (length str) || ltb 255 r.0) Ensures-thrown (
        let m = pos_part (min_ℤ nmemb (pos 8)) in
        let small : m ≤ pos_part nmemb = min_ℤ-le nmemb in
        Ensures-ok (All-bits_from m 0 r.0, omega (arith, length-bits_from m 0 r.0)))

  bit_of_number-IsBits :
      (nmemb : ℤ) (v : J) → 0 < pos_part nmemb → Ensures (IsBits nmemb) (bit_of_number json v)
  unfolding bit_of_number
  bit_of_number-IsBits nmemb v h = of_bool (json.to_bool v)
    where
      of_bool :
          (o : Option Bool)
          → Ensures (IsBits nmemb) (elim o [
            | some b ↦ ok ((if b then 1 else 0) ∷ [])
            | none ↦ bit_of_int (json.to_int v)
          ])
      of_bool none = of_int-IsBits nmemb (json.to_int v) h
      of_bool (some b) = Ensures-ok (one_bit nmemb (if b then 1 else 0) h (ground arith))

  -- `getBitValues` makes at most as many values as are wanted, and each of them is 0 or 1.
  pub get_bit_values-IsBits :
      (nmemb : ℤ) (values : List J)
      → 0 < pos_part nmemb
      → Ensures (IsBits nmemb) (get_bit_values json nmemb values)
  unfolding get_bit_values
  get_bit_values-IsBits nmemb [] h = Ensures-ok (tt, omega arith)
  get_bit_values-IsBits nmemb (v ∷ values) h =
      Ensures-bind
        (if json.is_string v then bits_of_string json nmemb (json.text v) else bit_of_number json v)
        (Ensures-if (json.is_string v) (bits_of_string-IsBits nmemb (json.text v))
          (bit_of_number-IsBits nmemb v h))
        λ bits k.
          let left = nmemb -ℤ pos (length bits) in
          Ensures-test (leb_ℤ left (pos 0)) (λ e. Ensures-ok k)
            (λ e.
              Ensures-bind (get_bit_values json left values)
                (get_bit_values-IsBits left values (ground arith))
                λ more j. Ensures-ok (IsBits-append nmemb bits more k e j))

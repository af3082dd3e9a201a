-- ===== src/Request/Registers.antt =====
-- The registers of a request or of a response, as words at even distances.
use libmodbuspp.Base.{
  All, ℕ, ◌+◌, ◌*◌, ◌^◌, ◌≤◌, ◌<◌, ◌≡◌, ◌≢◌, ◌/◌, ◌%◌, refl, sym, subst, set, length-set, arith,
  List, length, take, pos, Outcome, ok,
}
use libmodbuspp.Base.Loops.{collect, store, collect-store, store-total}
use libmodbuspp.Message.{Message, word, set_word}
use libmodbuspp.Message.Access.{
  word-set_word, word-set_word_ne, set_word-cases, set_word-ok, with_word,
}
use libmodbuspp.Request.{register_values, set_register_values, set_register_value, register_value}
use libmodbuspp.Response

-- A `uint16_t`.
abbrev pub IsWord : ℕ → Type 0
IsWord v = v < 65536

module _ (off bound : ℕ) where
  abbrev get : Message → ℕ → Outcome ℕ
  get m i = word m (pos (off + i * 2))

  abbrev put : Message → ℕ → ℕ → Outcome Message
  put m i v = set_word m (pos (off + i * 2)) v

  -- The message holds `bound` registers.
  abbrev pub Holds : Message → Type 0
  Holds m = m.pdu_begin + off + bound * 2 ≤ length m.adu

  put-Holds : (m : Message) (j v : ℕ) (t : Message) → Holds m → put m j v ≡ ok t → Holds t
  put-Holds m j v t u h =
      let (k, at, fits, e) = set_word-cases m (pos (off + j * 2)) v h in
      subst Holds (sym e) (
        omega (
          arith,
          u,
          length-set (set m.adu k (v / 2 ^ 8 % 2 ^ 8)) (k + 1) (v % 2 ^ 8),
          length-set m.adu k (v / 2 ^ 8 % 2 ^ 8),
        ))

  put-total :
      (m : Message) (j v : ℕ) → Holds m → IsWord v → j < bound → (t : Message) × (put m j v ≡ ok t)
  put-total m j v u w lt =
      let k : ℕ = m.pdu_begin + (off + j * 2) in
      (with_word m k v, set_word-ok m (pos (off + j * 2)) v k refl (omega arith))

  get-put_ne :
      (m : Message) (j k v : ℕ) (t : Message)
      → Holds m
      → IsWord v
      → j ≢ k
      → put m j v ≡ ok t
      → get t k ≡ get m k
  get-put_ne m j k v t u w ne h =
      word-set_word_ne m (pos (off + j * 2)) (pos (off + k * 2)) v (m.pdu_begin + (off + j * 2))
        (m.pdu_begin + (off + k * 2)) refl refl (ground arith) h

  pub registers_round_trip :
      (m : Message) (i n : ℕ) (values : List ℕ)
      → Holds m
      → All IsWord values
      → n ≤ length values
      → i + n ≤ bound
      → i + n ≤ 65536
      → (t : Message) × (store put m i 0 n values ≡ ok t)
        × (collect get t i 0 n ≡ ok (take n values))
  registers_round_trip m i n values u w l b fits =
      let (t, stored) =
        store-total get put IsWord Holds (λ s j v t u w e. put-Holds s j v t u e)
          (λ s j v t u w e. word-set_word s (pos (off + j * 2)) v w e) get-put_ne bound put-total m
          i 0 n values u w (omega arith) (omega arith) l in
      (
        t,
        stored,
        collect-store get put IsWord Holds (λ s j v t u w e. put-Holds s j v t u e)
            (λ s j v t u w e. word-set_word s (pos (off + j * 2)) v w e) get-put_ne m i 0 n values u
            w (omega arith) stored,
      )

-- A request with room for the registers from `i` to `i + n`, in the range of `uint16_t`, takes `n`
-- values through `setRegisterValues`, and `registerValues` then reads back the same values.
pub request_registers_round_trip :
    (m : Message) (i n : ℕ) (values : List ℕ)
    → m.pdu_begin + 6 + (i + n) * 2 ≤ length m.adu
    → All IsWord values
    → n ≤ length values
    → i + n ≤ 65536
    → (t : Message) × (set_register_values m i n values ≡ ok t)
      × (register_values t i n ≡ ok (take n values))
unfolding register_values set_register_values set_register_value register_value
request_registers_round_trip m i n values u w l fits =
    registers_round_trip 6 (i + n) m i n values u w l (omega arith) fits

-- A response with room for the registers from `i` to `i + n`, in the range of `uint16_t`, takes `n`
-- values through `setRegisterValues`, and `registerValues` then reads back the same values.
pub response_registers_round_trip :
    (m : Message) (i n : ℕ) (values : List ℕ)
    → m.pdu_begin + 2 + (i + n) * 2 ≤ length m.adu
    → All IsWord values
    → n ≤ length values
    → i + n ≤ 65536
    → (t : Message) × (Response.set_register_values m i n values ≡ ok t)
      × (Response.register_values t i n ≡ ok (take n values))
unfolding Response.register_values Response.set_register_values Response.set_register_value
    Response.register_value
response_registers_round_trip m i n values u w l fits =
    registers_round_trip 2 (i + n) m i n values u w l (omega arith) fits

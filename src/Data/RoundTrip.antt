-- ===== src/Data/RoundTrip.antt =====
-- The registers of a value carry it, whatever the order of bytes and words.
use libmodbuspp.Base.{
  ℕ, ◌-◌, ◌/◌, ◌%◌, ◌<◌, ◌≡◌, refl, sym, ap, ap₂, subst, ◌∙◌, arith, List, map, length, IsBytes,
}
use libmodbuspp.Swap.{
  swap_loop, swap_words, swap_bytes_in_words, swap_bytes, hton, ntoh, swap_word, to_words,
  from_words,
}
use libmodbuspp.Swap.Mirror.{swap_loop_twice, length-swap_loop}
use libmodbuspp.Data.Words.{
  IsWords, IsEven, to_words-from_words, from_words-to_words, to_words-IsWords, from_words-IsBytes,
  length-to_words, length-from_words, swap_words_twice, map-swap_word-IsWords, All-swap_loop,
}
use libmodbuspp.Data.{
  Data, Endian, big_big, big_little, little_big, little_little, swap, update_registers,
  update_value,
}

-- The bytes of a type that `Data` takes.
abbrev pub IsValue : List ℕ → Type 0
IsValue bytes = IsBytes bytes × IsEven bytes

pub swap_bytes_twice : (bytes : List ℕ) → swap_bytes (swap_bytes bytes) ≡ bytes
unfolding swap_bytes
swap_bytes_twice bytes = swap_loop_twice bytes

pub swap_bytes-IsValue : (bytes : List ℕ) → IsValue bytes → IsValue (swap_bytes bytes)
unfolding swap_bytes
swap_bytes-IsValue bytes h = (
  All-swap_loop (λ x. x < 256) (omega arith) (length bytes / 2) 0 (length bytes - 1) bytes h.0,
  ap (λ n. n % 2) (length-swap_loop (length bytes / 2) 0 (length bytes - 1) bytes) ∙ h.1,
)

abbrev mirror : List ℕ → List ℕ
mirror ws = swap_loop (length ws / 2) 0 (length ws - 1) ws

swap_words-eq :
    (bytes : List ℕ) → IsEven bytes → swap_words bytes ≡ from_words (mirror (to_words bytes))
unfolding swap_words
swap_words-eq bytes e =
    let l = length-to_words bytes e in
    let a : length bytes / 4 ≡ length (to_words bytes) / 2 = omega (arith, l) in
    let b : length bytes / 2 - 1 ≡ length (to_words bytes) - 1 = omega (arith, l) in
    ap₂ (λ r last. from_words (swap_loop r 0 last (to_words bytes))) a b

from_words-IsValue : (ws : List ℕ) → IsWords ws → IsValue (from_words ws)
from_words-IsValue ws h = (from_words-IsBytes ws h, omega (arith, length-from_words ws))

module _ (bytes : List ℕ) (h : IsValue bytes) where
  mirror-IsWords : IsWords (mirror (to_words bytes))
  mirror-IsWords =
      let ws = to_words bytes in
      All-swap_loop (λ x. x < 65536) (omega arith) (length ws / 2) 0 (length ws - 1) ws
        (to_words-IsWords bytes h.0)

  swap_words-IsValue : IsValue (swap_words bytes)
  swap_words-IsValue =
      subst IsValue (sym (swap_words-eq bytes h.1))
        (from_words-IsValue (mirror (to_words bytes)) mirror-IsWords)

  swap_words_undone : swap_words (swap_words bytes) ≡ bytes
  swap_words_undone =
      let ws = to_words bytes in
      swap_words-eq (swap_words bytes) swap_words-IsValue.1
      ∙ ap (λ x. from_words (mirror (to_words x))) (swap_words-eq bytes h.1)
      ∙ ap (λ x. from_words (mirror x)) (to_words-from_words (mirror ws))
      ∙ ap from_words (swap_loop_twice ws)
      ∙ from_words-to_words bytes h.0 h.1

  swap_bytes_in_words-IsValue : IsValue (swap_bytes_in_words bytes)
  unfolding swap_bytes_in_words
  swap_bytes_in_words-IsValue =
      let ws = to_words bytes in
      from_words-IsValue (map swap_word ws) (map-swap_word-IsWords ws (to_words-IsWords bytes h.0))

  swap_bytes_in_words_undone : swap_bytes_in_words (swap_bytes_in_words bytes) ≡ bytes
  unfolding swap_bytes_in_words
  swap_bytes_in_words_undone =
      let ws = to_words bytes in
      ap (λ x. from_words (map swap_word x)) (to_words-from_words (map swap_word ws))
      ∙ ap from_words (swap_words_twice ws (to_words-IsWords bytes h.0))
      ∙ from_words-to_words bytes h.0 h.1

swap-IsValue : (e : Endian) (bytes : List ℕ) → IsValue bytes → IsValue (swap e bytes)
unfolding swap
swap-IsValue big_big bytes h = h
swap-IsValue big_little bytes h = swap_words-IsValue bytes h
swap-IsValue little_big bytes h = swap_bytes_in_words-IsValue bytes h
swap-IsValue little_little bytes h = swap_bytes-IsValue bytes h

pub swap_undone : (e : Endian) (bytes : List ℕ) → IsValue bytes → swap e (swap e bytes) ≡ bytes
unfolding swap
swap_undone big_big bytes h = refl
swap_undone big_little bytes h = swap_words_undone bytes h
swap_undone little_big bytes h = swap_bytes_in_words_undone bytes h
swap_undone little_little bytes h = swap_bytes_twice bytes

-- For a value of an even number of bytes, in each of the four orders of bytes and words:
-- `updateValue`, applied to the registers that `updateRegisters` made of the value, gives the value
-- back, whatever stands in `m_value` by then.
pub registers_carry_value :
    (e : Endian) (value forgotten before : List ℕ)
    → IsBytes value
    → IsEven value
    → Data.value (
        update_value
          (record (update_registers (record { value = value; endian = e; registers = before })) {
            value = forgotten;
          }))
      ≡ value
unfolding update_value update_registers hton ntoh
registers_carry_value e value forgotten before h k =
    let sent = swap_bytes value in
    let sent-IsValue = swap_bytes-IsValue value (h, k) in
    let v = swap e sent in
    let v-IsValue = swap-IsValue e sent sent-IsValue in
    ap (λ ws. swap_bytes (swap e (from_words ws)))
      (swap_words_twice (to_words v) (to_words-IsWords v v-IsValue.0))
    ∙ ap (λ x. swap_bytes (swap e x)) (from_words-to_words v v-IsValue.0 v-IsValue.1)
    ∙ ap swap_bytes (swap_undone e sent sent-IsValue)
    ∙ swap_bytes_twice value

-- ===== src/Data/Orders.antt =====
-- The registers of a 32-bit value in each of the four orders.
use libmodbuspp.Base.{ℕ, ◌+◌, ◌*◌, ◌<◌, ◌≡◌, ap₂, arith, [], ◌∷◌}
use libmodbuspp.Swap.{
  swap_at, swap_loop, swap_words, swap_bytes_in_words, swap_bytes, hton, swap_word,
}
use libmodbuspp.Data.{
  Data, big_big, big_little, little_big, little_little, swap, update_registers, set_endianness,
}

-- The registers of a value with the bytes A, B, C and D, from the most to the least significant,
-- after `setEndianness` to each order: ABCD, CDAB, BADC and DCBA, the high byte of each register
-- first.
pub registers_by_order :
    (a b c d : ℕ) (m : Data)
    → a < 256
    → b < 256
    → c < 256
    → d < 256
    → m.value ≡ d ∷ c ∷ b ∷ a ∷ []
    → ((set_endianness m big_big).registers ≡ (a * 256 + b) ∷ (c * 256 + d) ∷ [])
      × ((set_endianness m big_little).registers ≡ (c * 256 + d) ∷ (a * 256 + b) ∷ [])
      × ((set_endianness m little_big).registers ≡ (b * 256 + a) ∷ (d * 256 + c) ∷ [])
      × ((set_endianness m little_little).registers ≡ (d * 256 + c) ∷ (b * 256 + a) ∷ [])
unfolding set_endianness update_registers swap swap_words swap_bytes_in_words swap_bytes hton
    swap_word swap_loop swap_at
registers_by_order a b c d m p q r s e = rw e (
  pair (omega arith) (omega arith),
  pair (omega arith) (omega arith),
  pair (omega arith) (omega arith),
  pair (omega arith) (omega arith),
)
  where
    pair : {w x y z : ℕ} → w ≡ y → x ≡ z → w ∷ x ∷ [] ≡ y ∷ z ∷ []
    pair h k = ap₂ (λ w x. w ∷ x ∷ []) h k

-- ===== src/Data/Width.antt =====
-- How many registers a value has.
use libmodbuspp.Base.{ℕ, ◌-◌, ◌*◌, ◌/◌, ◌%◌, ◌≡◌, refl, ap, ◌∙◌, arith, List, map, length}
use libmodbuspp.Swap.{
  swap_loop, swap_words, swap_bytes_in_words, swap_bytes, hton, swap_word, to_words,
}
use libmodbuspp.Swap.Mirror.{length-swap_loop}
use libmodbuspp.Data.Words.{IsEven, length-to_words, length-from_words, length-map}
use libmodbuspp.Data.{
  Data, Endian, big_big, big_little, little_big, little_little, swap, update_registers,
}

pub length-swap_bytes : (bytes : List ℕ) → length (swap_bytes bytes) ≡ length bytes
unfolding swap_bytes
length-swap_bytes bytes = length-swap_loop (length bytes / 2) 0 (length bytes - 1) bytes

pub length-swap :
    (e : Endian) (bytes : List ℕ) → IsEven bytes → length (swap e bytes) ≡ length bytes
unfolding swap swap_words swap_bytes_in_words
length-swap big_big bytes h = refl
length-swap big_little bytes h =
    let last = length bytes / 2 - 1 in
    omega (
      arith,
      length-from_words (swap_loop (length bytes / 4) 0 last (to_words bytes)),
      length-swap_loop (length bytes / 4) 0 last (to_words bytes),
      length-to_words bytes h,
    )
length-swap little_big bytes h = omega (
  arith,
  length-from_words (map swap_word (to_words bytes)),
  length-map swap_word (to_words bytes),
  length-to_words bytes h,
)
length-swap little_little bytes h = length-swap_bytes bytes

-- Two bytes make a register.
pub length-update_registers :
    (d : Data) → IsEven d.value → 2 * length (update_registers d).registers ≡ length d.value
unfolding update_registers hton
length-update_registers d h =
    let sent = swap_bytes d.value in
    let e : IsEven sent = ap (λ n. n % 2) (length-swap_bytes d.value) ∙ h in
    let v = swap d.endian sent in
    let f : IsEven v = ap (λ n. n % 2) (length-swap d.endian sent e) ∙ e in
    omega (
      arith,
      length-map swap_word (to_words v),
      length-to_words v f,
      length-swap d.endian sent e,
      length-swap_bytes d.value,
    )

-- ===== src/Swap.antt =====
-- The templates of include/modbuspp/swap.h, on the memory of a value: its bytes, or its 16-bit words.
-- The host is little endian, as `__BYTE_ORDER` says on the machines that the library is built for.
pub mod Mirror
use libmodbuspp.Base.{
  ℕ, zero, suc, ◌+◌, ◌-◌, ◌*◌, ◌/◌, ◌%◌, List, [], ◌∷◌, map, length, get_or, set,
}

-- `std::swap (ptr[i], ptr[j])`
unfoldable pub swap_at : List ℕ → ℕ → ℕ → List ℕ
swap_at xs i j = set (set xs i (get_or xs j 0)) j (get_or xs i 0)

-- The loop over `i`, with the rounds left: element `i` changes places with `last - i`.
unfoldable pub swap_loop : ℕ → ℕ → ℕ → List ℕ → List ℕ
swap_loop zero i last xs = xs
swap_loop (suc rounds) i last xs = swap_loop rounds (i + 1) last (swap_at xs i (last - i))

unfoldable pub swap_bytes : List ℕ → List ℕ
swap_bytes bytes = swap_loop (length bytes / 2) 0 (length bytes - 1) bytes

-- `reinterpret_cast <uint16_t *>` of the bytes, and back.
abbrev pub to_words : List ℕ → List ℕ
to_words [] = []
to_words (lo ∷ []) = lo ∷ []
to_words (lo ∷ hi ∷ bytes) = (lo + hi * 256) ∷ to_words bytes

abbrev pub from_words : List ℕ → List ℕ
from_words [] = []
from_words (w ∷ words) = w % 256 ∷ w / 256 ∷ from_words words

unfoldable pub swap_words : List ℕ → List ℕ
swap_words bytes =
    from_words (swap_loop (length bytes / 4) 0 (length bytes / 2 - 1) (to_words bytes))

-- `swapBytes` on a `uint16_t`
unfoldable pub swap_word : ℕ → ℕ
swap_word w =
    let bytes = swap_bytes (w % 256 ∷ w / 256 ∷ []) in get_or bytes 0 0 + get_or bytes 1 0 * 256

unfoldable pub swap_bytes_in_words : List ℕ → List ℕ
swap_bytes_in_words bytes = from_words (map swap_word (to_words bytes))

unfoldable pub hton : List ℕ → List ℕ
hton bytes = swap_bytes bytes

unfoldable pub ntoh : List ℕ → List ℕ
ntoh bytes = swap_bytes bytes

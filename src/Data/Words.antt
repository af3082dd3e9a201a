-- ===== src/Data/Words.antt =====
-- The bytes of a value and the words that they make, through the swaps of include/modbuspp/swap.h.
use libmodbuspp.Base.{
  ℕ, zero, suc, ◌+◌, ◌-◌, ◌*◌, ◌/◌, ◌%◌, ◌<◌, ◌≡◌, refl, ap, ap₂, arith, List, [], ◌∷◌, map, length,
  get_or, set, All, All-set, IsBytes,
}
use libmodbuspp.Swap.{swap_at, swap_loop, swap_bytes, swap_word, to_words, from_words}

abbrev pub IsWords : List ℕ → Type 0
IsWords = All (λ x. x < 65536)

-- A whole number of words.
abbrev pub IsEven : List ℕ → Type 0
IsEven bytes = length bytes % 2 ≡ 0

pub to_words-from_words : (ws : List ℕ) → to_words (from_words ws) ≡ ws
to_words-from_words [] = refl
to_words-from_words (w ∷ ws) = ap₂ ◌∷◌ (omega arith) (to_words-from_words ws)

pub from_words-to_words :
    (bytes : List ℕ) → IsBytes bytes → IsEven bytes → from_words (to_words bytes) ≡ bytes
from_words-to_words [] h e = refl
from_words-to_words (b ∷ []) h e = absurd (omega arith)
from_words-to_words (lo ∷ hi ∷ bytes) h e =
    let l : lo < 256 = h.0 in
    let k : hi < 256 = h.1.0 in
    ap₂ ◌∷◌ (omega arith) (ap₂ ◌∷◌ (omega arith) (from_words-to_words bytes h.1.1 (omega arith)))

pub to_words-IsWords : (bytes : List ℕ) → IsBytes bytes → IsWords (to_words bytes)
to_words-IsWords [] h = tt
to_words-IsWords (b ∷ []) h = let l : b < 256 = h.0 in (omega arith, tt)
to_words-IsWords (lo ∷ hi ∷ bytes) h =
    let l : lo < 256 = h.0 in
    let k : hi < 256 = h.1.0 in (omega arith, to_words-IsWords bytes h.1.1)

pub from_words-IsBytes : (ws : List ℕ) → IsWords ws → IsBytes (from_words ws)
from_words-IsBytes [] h = tt
from_words-IsBytes (w ∷ ws) h =
    let l : w < 65536 = h.0 in (omega arith, (omega arith, from_words-IsBytes ws h.1))

pub length-to_words : (bytes : List ℕ) → IsEven bytes → length bytes ≡ 2 * length (to_words bytes)
length-to_words [] e = refl
length-to_words (b ∷ []) e = absurd (omega arith)
length-to_words (lo ∷ hi ∷ bytes) e = omega (arith, length-to_words bytes (omega arith))

pub length-from_words : (ws : List ℕ) → length (from_words ws) ≡ 2 * length ws
length-from_words [] = refl
length-from_words (w ∷ ws) = omega (arith, length-from_words ws)

pub length-map : (f : ℕ → ℕ) (ws : List ℕ) → length (map f ws) ≡ length ws
length-map f [] = refl
length-map f (w ∷ ws) = ap suc (length-map f ws)

pub swap_word-eq : (w : ℕ) → swap_word w ≡ w / 256 + w % 256 * 256
unfolding swap_word swap_bytes swap_loop swap_at
swap_word-eq w = refl

pub swap_words_twice : (ws : List ℕ) → IsWords ws → map swap_word (map swap_word ws) ≡ ws
swap_words_twice [] h = refl
swap_words_twice (w ∷ ws) h =
    let l : w < 65536 = h.0 in
    ap₂ ◌∷◌ (omega (arith, swap_word-eq w, swap_word-eq (swap_word w))) (swap_words_twice ws h.1)

pub map-swap_word-IsWords : (ws : List ℕ) → IsWords ws → IsWords (map swap_word ws)
map-swap_word-IsWords [] h = tt
map-swap_word-IsWords (w ∷ ws) h =
    let l : w < 65536 = h.0 in (omega (arith, swap_word-eq w), map-swap_word-IsWords ws h.1)

-- What holds of all the elements holds of them in another order.
module _ (V : ℕ → Type 0) (z : V 0) where
  All-get_or : (xs : List ℕ) (i : ℕ) → All V xs → V (get_or xs i 0)
  All-get_or [] i h = z
  All-get_or (x ∷ xs) zero h = h.0
  All-get_or (x ∷ xs) (suc i) h = All-get_or xs i h.1

  pub All-swap_loop : (r i last : ℕ) (xs : List ℕ) → All V xs → All V (swap_loop r i last xs)
  unfolding swap_loop swap_at
  All-swap_loop zero i last xs h = h
  All-swap_loop (suc r) i last xs h = All-swap_loop r (i + 1) last (swap_at xs i (last - i)) (
      All-set V (set xs i (get_or xs (last - i) 0)) (last - i) (get_or xs i 0)
        (All-set V xs i (get_or xs (last - i) 0) h (All-get_or xs (last - i) h))
        (All-get_or xs i h))

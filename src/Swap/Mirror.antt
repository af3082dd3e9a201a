-- ===== src/Swap/Mirror.antt =====
-- The swapping loop reverses: element `j` of the result is element `n - 1 - j` of the input.
use libmodbuspp.Base.{
  ℕ, zero, suc, ◌+◌, ◌-◌, ◌*◌, ◌/◌, ◌≤◌, ◌<◌, ◌≡◌, ◌≢◌, ◌⊎◌, refl, ap, ap₂, ◌∙◌, arith, List, [],
  ◌∷◌, length, length-set, get_or, set,
}
use libmodbuspp.Swap.{swap_at, swap_loop}

get_or-set_self : (xs : List ℕ) (i v : ℕ) → i < length xs → get_or (set xs i v) i 0 ≡ v
get_or-set_self [] i v h = elim h [ ]
get_or-set_self (x ∷ xs) zero v h = refl
get_or-set_self (x ∷ xs) (suc i) v h = get_or-set_self xs i v (omega arith)

get_or-set_ne : (xs : List ℕ) (i j v : ℕ) → i ≢ j → get_or (set xs i v) j 0 ≡ get_or xs j 0
get_or-set_ne [] i j v h = refl
get_or-set_ne (x ∷ xs) zero zero v h = absurd (h refl)
get_or-set_ne (x ∷ xs) zero (suc j) v h = refl
get_or-set_ne (x ∷ xs) (suc i) zero v h = refl
get_or-set_ne (x ∷ xs) (suc i) (suc j) v h = get_or-set_ne xs i j v (λ e. h (ap suc e))

pub get_or_ext :
    (xs ys : List ℕ)
    → length xs ≡ length ys
    → ((j : ℕ) → j < length xs → get_or xs j 0 ≡ get_or ys j 0)
    → xs ≡ ys
get_or_ext [] [] e h = refl
get_or_ext [] (y ∷ ys) e h = absurd (omega arith)
get_or_ext (x ∷ xs) [] e h = absurd (omega arith)
get_or_ext (x ∷ xs) (y ∷ ys) e h =
    ap₂ ◌∷◌ (h 0 (omega arith)) (get_or_ext xs ys (omega arith) (λ j l. h (suc j) (omega arith)))

length-swap_at : (xs : List ℕ) (i j : ℕ) → length (swap_at xs i j) ≡ length xs
unfolding swap_at
length-swap_at xs i j =
    length-set (set xs i (get_or xs j 0)) j (get_or xs i 0) ∙ length-set xs i (get_or xs j 0)

pub length-swap_loop : (r i last : ℕ) (xs : List ℕ) → length (swap_loop r i last xs) ≡ length xs
unfolding swap_loop
length-swap_loop zero i last xs = refl
length-swap_loop (suc r) i last xs =
    length-swap_loop r (i + 1) last (swap_at xs i (last - i)) ∙ length-swap_at xs i (last - i)

module _ (xs : List ℕ) (i j : ℕ) (p : i < length xs) (q : j < length xs) where
  swap_at-left : get_or (swap_at xs i j) i 0 ≡ get_or xs j 0
  unfolding swap_at
  swap_at-left = ground (
    arith,
    get_or-set_self (set xs i (get_or xs j 0)) j (get_or xs i 0),
    get_or-set_ne (set xs i (get_or xs j 0)) j i (get_or xs i 0),
    get_or-set_self xs i (get_or xs j 0),
    length-set xs i (get_or xs j 0),
  )

  swap_at-right : get_or (swap_at xs i j) j 0 ≡ get_or xs i 0
  unfolding swap_at
  swap_at-right =
      get_or-set_self (set xs i (get_or xs j 0)) j (get_or xs i 0)
        (omega (arith, length-set xs i (get_or xs j 0)))

  swap_at-other : (k : ℕ) → i ≢ k → j ≢ k → get_or (swap_at xs i j) k 0 ≡ get_or xs k 0
  unfolding swap_at
  swap_at-other k a b =
      get_or-set_ne (set xs i (get_or xs j 0)) j k (get_or xs i 0) b
      ∙ get_or-set_ne xs i k (get_or xs j 0) a

-- What the rounds from `i` on do: they exchange the places from `i` to `i + r` with their mirrors.
abbrev Mirrored : ℕ → ℕ → ℕ → List ℕ → List ℕ → ℕ → Type 0
Mirrored r i last xs ys k =
    (i ≤ k → k < i + r → get_or ys k 0 ≡ get_or xs (last - k) 0)
    × (i ≤ last - k → last - k < i + r → get_or ys k 0 ≡ get_or xs (last - k) 0)
    × (((k < i) ⊎ (i + r ≤ k))
        → ((last - k < i) ⊎ (i + r ≤ last - k))
        → get_or ys k 0 ≡ get_or xs k 0)

swap_loop-Mirrored :
    (r i last : ℕ) (xs : List ℕ)
    → last < length xs
    → 2 * (i + r) ≤ last + 1
    → (k : ℕ) → k ≤ last
    → Mirrored r i last xs (swap_loop r i last xs) k
unfolding swap_loop
swap_loop-Mirrored zero i last xs h l k b = ground arith
swap_loop-Mirrored (suc r) i last xs h l k b =
    let ys = swap_at xs i (last - i) in
    let ih : Mirrored r (i + 1) last ys (swap_loop r (i + 1) last ys) k =
      swap_loop-Mirrored r (i + 1) last ys (omega (arith, length-swap_at xs i (last - i)))
        (omega arith) k b in
    ground (
      arith,
      ih,
      swap_at-left xs i (last - i) (omega arith) (omega arith),
      swap_at-right xs i (last - i) (omega arith) (omega arith),
      swap_at-other xs i (last - i) (omega arith) (omega arith) k,
      swap_at-other xs i (last - i) (omega arith) (omega arith) (last - k),
    )

-- The loop with half as many rounds as there are elements reverses them: the element `j` of the
-- result is the one that stands `j` places from the end.
pub swap_loop-mirror :
    (xs : List ℕ) (j : ℕ)
    → j < length xs
    → get_or (swap_loop (length xs / 2) 0 (length xs - 1) xs) j 0 ≡ get_or xs (length xs - 1 - j) 0
swap_loop-mirror xs j h = ground (
  arith,
  swap_loop-Mirrored (length xs / 2) 0 (length xs - 1) xs (omega arith) (omega arith) j
      (omega arith),
)

-- The loop a second time gives the elements back.
pub swap_loop_twice :
    (xs : List ℕ)
    → (let once = swap_loop (length xs / 2) 0 (length xs - 1) xs in
        swap_loop (length once / 2) 0 (length once - 1) once)
      ≡ xs
swap_loop_twice xs =
    let once = swap_loop (length xs / 2) 0 (length xs - 1) xs in
    let kept : length once ≡ length xs = length-swap_loop (length xs / 2) 0 (length xs - 1) xs in
    get_or_ext (swap_loop (length once / 2) 0 (length once - 1) once) xs
      (length-swap_loop (length once / 2) 0 (length once - 1) once ∙ kept)
      (λ j l.
        let h : j < length once =
          omega (arith, length-swap_loop (length once / 2) 0 (length once - 1) once) in
        swap_loop-mirror once j h
        ∙ swap_loop-mirror xs (length once - 1 - j) (omega (arith, kept))
        ∙ ap (λ k. get_or xs k 0) (omega (arith, kept)))

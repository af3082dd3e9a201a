-- ===== src/Base/Splice.antt =====
-- Lists that are cut and put together again.
use Prim.Native.Nat.{ℕ, zero, suc, ◌+◌, ◌-◌, ◌≤◌, ◌<◌}
use mathlib.Core.Path.{◌≡◌, refl, ap, sym, ◌∙◌}
use mathlib.Core.List.{List, [], ◌∷◌, ◌++◌}
use native.Mathlib.Omega.{arith}
use libmodbuspp.Base.Lists.{length, get_elem?, set, take, drop, splice, length-take, take-append}

module _ {A : Type 0} where
  pub drop-take_append : (n : ℕ) (xs ys : List A) → n ≤ length xs → drop n (take n xs ++ ys) ≡ ys
  drop-take_append zero xs ys h = refl
  drop-take_append (suc n) [] ys h = absurd (omega arith)
  drop-take_append (suc n) (x ∷ xs) ys h = drop-take_append n xs ys (omega arith)

  -- What was put into a list is found there.
  pub take-drop-splice :
      (xs : List A) (at : ℕ) (ys : List A)
      → at ≤ length xs
      → take (length ys) (drop at (splice xs at ys)) ≡ ys
  take-drop-splice xs at ys h =
      rw (drop-take_append at xs (ys ++ drop (at + length ys) xs) h)
        (take-append ys (drop (at + length ys) xs))

  pub get_elem?-append_right :
      (xs ys : List A) (j : ℕ) → get_elem? (xs ++ ys) (length xs + j) ≡ get_elem? ys j
  get_elem?-append_right [] ys j = ap (get_elem? ys) (omega arith)
  get_elem?-append_right (x ∷ xs) ys j =
      let e : suc (length xs) + j ≡ suc (length xs + j) = omega arith in
      ap (get_elem? (x ∷ (xs ++ ys))) e ∙ get_elem?-append_right xs ys j

  pub get_elem?-append_left :
      (xs ys : List A) (j : ℕ) → j < length xs → get_elem? (xs ++ ys) j ≡ get_elem? xs j
  get_elem?-append_left [] ys j h = elim h [ ]
  get_elem?-append_left (x ∷ xs) ys zero h = refl
  get_elem?-append_left (x ∷ xs) ys (suc j) h = get_elem?-append_left xs ys j (omega arith)

  pub get_elem?-take :
      (n : ℕ) (xs : List A) (j : ℕ) → j < n → get_elem? (take n xs) j ≡ get_elem? xs j
  get_elem?-take zero xs j h = elim h [ ]
  get_elem?-take (suc n) [] j h = refl
  get_elem?-take (suc n) (x ∷ xs) zero h = refl
  get_elem?-take (suc n) (x ∷ xs) (suc j) h = get_elem?-take n xs j (omega arith)

  pub get_elem?-drop :
      (n : ℕ) (xs : List A) (j : ℕ) → get_elem? (drop n xs) j ≡ get_elem? xs (n + j)
  get_elem?-drop zero xs j = ap (get_elem? xs) (omega arith)
  get_elem?-drop (suc n) [] j = refl
  get_elem?-drop (suc n) (x ∷ xs) j =
      let e : suc n + j ≡ suc (n + j) = omega arith in
      get_elem?-drop n xs j ∙ ap (get_elem? (x ∷ xs)) (sym e)

  -- What stands before or behind the part put in is left alone.
  pub get_elem?-splice_before :
      (xs : List A) (at : ℕ) (ys : List A) (j : ℕ)
      → j < at
      → at ≤ length xs
      → get_elem? (splice xs at ys) j ≡ get_elem? xs j
  get_elem?-splice_before xs at ys j h l =
      get_elem?-append_left (take at xs) (ys ++ drop (at + length ys) xs) j
        (omega (arith, length-take at xs))
      ∙ get_elem?-take at xs j h

  pub get_elem?-splice_after :
      (xs : List A) (at : ℕ) (ys : List A) (j : ℕ)
      → at + length ys ≤ j
      → at ≤ length xs
      → get_elem? (splice xs at ys) j ≡ get_elem? xs j
  get_elem?-splice_after xs at ys j h l =
      let rest = ys ++ drop (at + length ys) xs in
      let a : j ≡ length (take at xs) + (j - at) = omega (arith, length-take at xs) in
      let b : j - at ≡ length ys + (j - at - length ys) = omega arith in
      let c : at + length ys + (j - at - length ys) ≡ j = omega arith in
      ap (get_elem? (splice xs at ys)) a
      ∙ get_elem?-append_right (take at xs) rest (j - at)
      ∙ ap (get_elem? rest) b
      ∙ get_elem?-append_right ys (drop (at + length ys) xs) (j - at - length ys)
      ∙ get_elem?-drop (at + length ys) xs (j - at - length ys)
      ∙ ap (get_elem? xs) c

module _ {A : Type 0} where
  pub take-ge : (n : ℕ) (xs : List A) → length xs ≤ n → take n xs ≡ xs
  take-ge zero [] h = refl
  take-ge zero (x ∷ xs) h = absurd (omega arith)
  take-ge (suc n) [] h = refl
  take-ge (suc n) (x ∷ xs) h = ap (λ r. x ∷ r) (take-ge n xs (omega arith))

  pub drop-ge : (n : ℕ) (xs : List A) → length xs ≤ n → drop n xs ≡ []
  drop-ge zero [] h = refl
  drop-ge zero (x ∷ xs) h = absurd (omega arith)
  drop-ge (suc n) [] h = refl
  drop-ge (suc n) (x ∷ xs) h = drop-ge n xs (omega arith)

  pub take-append_le : (n : ℕ) (xs ys : List A) → n ≤ length xs → take n (xs ++ ys) ≡ take n xs
  take-append_le zero xs ys h = refl
  take-append_le (suc n) [] ys h = absurd (omega arith)
  take-append_le (suc n) (x ∷ xs) ys h = ap (λ r. x ∷ r) (take-append_le n xs ys (omega arith))

module _ {A : Type 0} where
  pub set-append :
      (xs : List A) (v w : A) (ys : List A) → set (xs ++ v ∷ ys) (length xs) w ≡ xs ++ w ∷ ys
  set-append [] v w ys = refl
  set-append (x ∷ xs) v w ys = ap (λ r. x ∷ r) (set-append xs v w ys)

  pub set-append_second :
      (xs : List A) (u v w : A) (ys : List A)
      → set (xs ++ u ∷ v ∷ ys) (length xs + 1) w ≡ xs ++ u ∷ w ∷ ys
  set-append_second [] u v w ys = refl
  set-append_second (x ∷ xs) u v w ys =
      let e : suc (length xs) + 1 ≡ suc (length xs + 1) = omega arith in
      ap (λ i. set (x ∷ (xs ++ u ∷ v ∷ ys)) i w) e ∙ ap (λ r. x ∷ r) (set-append_second xs u v w ys)

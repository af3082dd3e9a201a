-- ===== src/RtuLayer/Settings/Laws.antt =====
-- What is read of the settings that the library documents.
use libmodbuspp.Base.{
  ℕ, ◌+◌, ◌-◌, ◌≡◌, refl, ap, arith, ◌||◌, List, [], ◌∷◌, ◌++◌, length, length-append, get_or, ◌==◌,
  if◌then◌else◌, le→leb, ◌∙◌,
}
use libmodbuspp.RtuLayer.Settings.{parity, stop, even, odd, no_parity}

get_or-append : (xs : List ℕ) (y : ℕ) (ys : List ℕ) → get_or (xs ++ y ∷ ys) (length xs) 0 ≡ y
get_or-append [] y ys = refl
get_or-append (x ∷ xs) y ys = get_or-append xs y ys

-- Of settings that end in a character of parity and one more, the parity is E or O where that
-- character says so and none otherwise, and there is one stop bit with a parity and two without,
-- whatever the last character says.
pub settings_read :
    (rate : List ℕ) (p d : ℕ)
    → (parity (rate ++ p ∷ d ∷ []) ≡ (if (p == even) || (p == odd) then p else no_parity))
      × (stop (rate ++ p ∷ d ∷ []) ≡ (if (p == even) || (p == odd) then 1 else 2))
unfolding parity stop
settings_read rate p d =
    let n : length (rate ++ p ∷ d ∷ []) ≡ length rate + 2 = length-append rate (p ∷ d ∷ []) in
    let at : length rate + 2 - 2 ≡ length rate = omega arith in
    let c : get_or (rate ++ p ∷ d ∷ []) (length (rate ++ p ∷ d ∷ []) - 2) 0 ≡ p =
      ap (λ k. get_or (rate ++ p ∷ d ∷ []) (k - 2) 0) n
      ∙ ap (λ k. get_or (rate ++ p ∷ d ∷ []) k 0) at
      ∙ get_or-append rate p (d ∷ []) in
    rw (c, le→leb 2 (length (rate ++ p ∷ d ∷ [])) (omega (arith, n))) (ground arith)

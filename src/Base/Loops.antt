-- ===== src/Base/Loops.antt =====
-- The loops `for (uint16_t i = 0; i < quantity; i++)` over an array, which read or write one value
-- of an object at `index + i`, converted to `uint16_t`.
use Prim.Native.Nat.{ℕ, zero, suc, ◌+◌, ◌%◌, ◌^◌, ◌≤◌, ◌<◌}
use mathlib.Core.Path.{◌≡◌, refl, ◌∙◌}
use mathlib.Core.Logic.{◌≢◌}
use mathlib.Core.List.{List, [], ◌∷◌}
use native.Mathlib.Omega.{arith}
use libmodbuspp.Base.Lists.{length, take, All}
use libmodbuspp.Base.Results.{Outcome, ok, fault, ◌>>=◌}

module _ {S A : Type 0} (get : S → ℕ → Outcome A) where
  -- `i` rounds are done, and `n` are left.
  unfoldable pub collect : S → ℕ → ℕ → ℕ → Outcome (List A)
  collect s index i zero = ok []
  collect s index i (suc n) = do
    v ← get s ((index + i) % 2 ^ 16)
    vs ← collect s index (i + 1) n
    ok (v ∷ vs)

module _ {S A : Type 0} (put : S → ℕ → A → Outcome S) where
  -- The list is what is left of the caller's array.
  unfoldable pub store : S → ℕ → ℕ → ℕ → List A → Outcome S
  store s index i zero values = ok s
  store s index i (suc n) [] = fault
  store s index i (suc n) (v ∷ values) = do
    s' ← put s ((index + i) % 2 ^ 16) v
    store s' index (i + 1) n values

-- Reading after writing, for the places of one family of values.
module _ {S A : Type 0} (get : S → ℕ → Outcome A) (put : S → ℕ → A → Outcome S) (V : A → Type 0)
    (Inv : S → Type 0)
    (keep : (s : S) (j : ℕ) (v : A) (t : S) → Inv s → V v → put s j v ≡ ok t → Inv t)
    (same : (s : S) (j : ℕ) (v : A) (t : S) → Inv s → V v → put s j v ≡ ok t → get t j ≡ ok v)
    (other : (s : S) (j k : ℕ) (v : A) (t : S)
      → Inv s
      → V v
      → j ≢ k
      → put s j v ≡ ok t
      → get t k ≡ get s k) where
  step :
      (s : S) (index i n : ℕ) (v : A) (values : List A) {t : S}
      → store put s index i (suc n) (v ∷ values) ≡ ok t
      → (s' : S) × (put s ((index + i) % 2 ^ 16) v ≡ ok s')
        × (store put s' index (i + 1) n values ≡ ok t)
  unfolding store
  step s index i n v values h = ground arith

  pub store-other :
      (s : S) (index i n k : ℕ) (values : List A) {t : S}
      → Inv s
      → All V values
      → index + i + n ≤ 2 ^ 16
      → k < index + i
      → store put s index i n values ≡ ok t
      → get t k ≡ get s k
  unfolding store
  store-other s index i zero k values v a r lt h = ground arith
  store-other s index i (suc n) k [] v a r lt h = ground arith
  store-other s index i (suc n) k (x ∷ values) v a r lt h =
      let (s', first, rest) = step s index i n x values h in
      store-other s' index (i + 1) n k values (keep s ((index + i) % 2 ^ 16) x s' v a.0 first) a.1
        (omega arith) (omega arith) rest
      ∙ other s ((index + i) % 2 ^ 16) k x s' v a.0 (omega arith) first

  -- What the writing loop stores, the reading loop finds.
  pub collect-store :
      (s : S) (index i n : ℕ) (values : List A) {t : S}
      → Inv s
      → All V values
      → index + i + n ≤ 2 ^ 16
      → store put s index i n values ≡ ok t
      → collect get t index i n ≡ ok (take n values)
  unfolding store collect
  collect-store s index i zero values v a r h = refl
  collect-store s index i (suc n) [] v a r h = ground arith
  collect-store s index i (suc n) (x ∷ values) {t} v a r h =
      let (s', first, rest) = step s index i n x values h in
      let v' : Inv s' = keep s ((index + i) % 2 ^ 16) x s' v a.0 first in
      let found : get t ((index + i) % 2 ^ 16) ≡ ok x =
        store-other s' index (i + 1) n ((index + i) % 2 ^ 16) values v' a.1 (omega arith)
          (omega arith) rest
        ∙ same s ((index + i) % 2 ^ 16) x s' v a.0 first in
      rw (found, collect-store s' index (i + 1) n values v' a.1 (omega arith) rest)

  -- With room for every value the writing loop returns.
  pub store-total :
      (bound : ℕ)
      → ((s : S) (j : ℕ) (v : A) → Inv s → V v → j < bound → (t : S) × (put s j v ≡ ok t))
      → (s : S) (index i n : ℕ) (values : List A) → Inv s
      → All V values
      → index + i + n ≤ 2 ^ 16
      → index + i + n ≤ bound
      → n ≤ length values
      → (t : S) × (store put s index i n values ≡ ok t)
  unfolding store
  store-total bound room s index i zero values v a r b l = (s, refl)
  store-total bound room s index i (suc n) [] v a r b l = absurd (omega arith)
  store-total bound room s index i (suc n) (x ∷ values) v a r b l =
      let (s', first) = room s ((index + i) % 2 ^ 16) x v a.0 (omega arith) in
      let (t, rest) =
        store-total bound room s' index (i + 1) n values
          (keep s ((index + i) % 2 ^ 16) x s' v a.0 first) a.1 (omega arith) (omega arith)
          (omega arith) in
      (t, rw (first, rest))

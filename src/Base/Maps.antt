-- ===== src/Base/Maps.antt =====
-- `std::map <int, T>`, as an association list. The order of its keys is not observed.
use mathlib.Core.Path.{◌≡◌, sym, subst}
use mathlib.Core.Logic.{◌≢◌, inl, inr}
use mathlib.Core.Bool.{true}
use mathlib.Core.List.{List, [], ◌∷◌}
use mathlib.Core.Option.{Option, none, some, some-injective}
use native.Mathlib.Omega.{arith}
use libmodbuspp.Base.Tests.{if◌then◌else◌, Bool-cases}
use libmodbuspp.Base.Int.{ℤ, pos, negsuc, eqb_ℤ}
use libmodbuspp.Base.Lists.{All}

pub eq-of-eqb_ℤ : (a b : ℤ) → eqb_ℤ a b ≡ true → a ≡ b
eq-of-eqb_ℤ (pos a) (pos b) h = ground arith
eq-of-eqb_ℤ (pos a) (negsuc b) h = ground arith
eq-of-eqb_ℤ (negsuc a) (pos b) h = ground arith
eq-of-eqb_ℤ (negsuc a) (negsuc b) h = ground arith

pub eqb_ℤ_self : (a : ℤ) → eqb_ℤ a a ≡ true
eqb_ℤ_self (pos a) = ground arith
eqb_ℤ_self (negsuc a) = ground arith

module _ {V : Type 0} where
  -- `at`, `count` and `operator []` on a key that may be missing.
  abbrev pub find : List (ℤ × V) → ℤ → Option V
  find [] k = none
  find ((j, v) ∷ m) k = if eqb_ℤ j k then some v else find m k

  -- `m [k] = v`
  abbrev pub put : List (ℤ × V) → ℤ → V → List (ℤ × V)
  put [] k v = (k, v) ∷ []
  put ((j, w) ∷ m) k v = if eqb_ℤ j k then (j, v) ∷ m else (j, w) ∷ put m k v

  pub find-put_self : (m : List (ℤ × V)) (k : ℤ) (v : V) → find (put m k v) k ≡ some v
  find-put_self [] k v = rw (eqb_ℤ_self k)
  find-put_self ((j, w) ∷ m) k v = ground (arith, find-put_self m k v)

  pub find-put_ne : (m : List (ℤ × V)) (k j : ℤ) (v : V) → k ≢ j → find (put m k v) j ≡ find m j
  find-put_ne [] k j v ne = ground (arith, eq-of-eqb_ℤ k j)
  find-put_ne ((i, w) ∷ m) k j v ne =
      ground (arith, eq-of-eqb_ℤ k j, eq-of-eqb_ℤ i k, eq-of-eqb_ℤ i j, find-put_ne m k j v ne)

module _ {V : Type 0} (P : ℤ × V → Type 0) where
  pub All-put : (m : List (ℤ × V)) (k : ℤ) (v : V) → All P m → P (k, v) → All P (put m k v)
  All-put [] k v h p = (p, tt)
  All-put ((j, w) ∷ m) k v h p = elim (Bool-cases (eqb_ℤ j k)) [
    | inl e ↦ rw e (subst (λ i. P (i, v)) (sym (eq-of-eqb_ℤ j k e)) p, h.1)
    | inr e ↦ rw e (h.0, All-put m k v h.1 p)
  ]

  pub All-find : (m : List (ℤ × V)) (k : ℤ) (v : V) → All P m → find m k ≡ some v → P (k, v)
  All-find [] k v h e = absurd (ground arith)
  All-find ((j, w) ∷ m) k v h e = elim (Bool-cases (eqb_ℤ j k)) [
    | inl t ↦
        let same : some w ≡ some v = ground arith in
        subst (λ i. P (i, v)) (eq-of-eqb_ℤ j k t)
          (subst (λ x. P (j, x)) (some-injective w v same) h.0)
    | inr t ↦ All-find m k v h.1 (ground arith)
  ]

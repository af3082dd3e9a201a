-- ===== src/Router/Sorted.antt =====
-- The map of masters stays in the order of the names, each name once, and holds what was added.
use libmodbuspp.Base.{
  ℕ, ◌≡◌, ◌≢◌, refl, sym, ap, ap₂, subst, arith, true, false, Bool-cases, inl, inr, none, some,
  List, [], ◌∷◌, if◌then◌else◌, All, ok,
}
use Prim.{Unit, tt}
use libmodbuspp.Device.{Device}
use libmodbuspp.Server.Control.{is_open}
use libmodbuspp.Router.{Router, Masters}
use libmodbuspp.Router.Names.{
  less, same_text, find_master, place_master, add_master, master_at, new_device,
}

less_irrefl : (a : List ℕ) → less a a ≡ false
unfolding less
less_irrefl [] = refl
less_irrefl (x ∷ xs) = ground (arith, less_irrefl xs)

less_trans : (a b c : List ℕ) → less a b ≡ true → less b c ≡ true → less a c ≡ true
unfolding less
less_trans [] [] c h k = absurd (ground arith)
less_trans [] (y ∷ ys) [] h k = absurd (ground arith)
less_trans [] (y ∷ ys) (z ∷ zs) h k = refl
less_trans (x ∷ xs) [] c h k = absurd (ground arith)
less_trans (x ∷ xs) (y ∷ ys) [] h k = absurd (ground arith)
less_trans (x ∷ xs) (y ∷ ys) (z ∷ zs) h k = let t = less_trans xs ys zs in ground arith

less-total : (a b : List ℕ) → less a b ≡ false → less b a ≡ false → a ≡ b
unfolding less
less-total [] [] h k = refl
less-total [] (y ∷ ys) h k = absurd (ground arith)
less-total (x ∷ xs) [] h k = absurd (ground arith)
less-total (x ∷ xs) (y ∷ ys) h k =
    let t = less-total xs ys in
    let e : x ≡ y = ground arith in ap₂ (λ z zs. z ∷ zs) e (t (ground arith) (ground arith))

same_text-eq : (a b : List ℕ) → same_text a b ≡ true → a ≡ b
same_text-eq a b h = less-total a b (ground arith) (ground arith)

same_text_refl : (a : List ℕ) → same_text a a ≡ true
same_text_refl a = let e = less_irrefl a in rw e refl

-- The name comes before all of these.
abbrev Below : List ℕ → Masters → Type 0
Below n ms = All (λ e. less n e.0 ≡ true) ms

-- The names grow.
abbrev pub IsSorted : Masters → Type 0
IsSorted [] = Unit {0}
IsSorted ((n, m) ∷ ms) = Below n ms × IsSorted ms

Below-less : (a b : List ℕ) (ms : Masters) → less a b ≡ true → Below b ms → Below a ms
Below-less a b [] h k = tt
Below-less a b ((n, m) ∷ ms) h k = (less_trans a b n h k.0, Below-less a b ms h k.1)

Below-place :
    (a name : List ℕ) (ms : Masters) (d : Device)
    → less a name ≡ true
    → Below a ms
    → Below a (place_master ms name d)
unfolding place_master
Below-place a name [] d h k = (h, tt)
Below-place a name ((n, m) ∷ ms) d h k = elim (Bool-cases (same_text n name)) [
  | inl same ↦ rw same (h, k.1)
  | inr other ↦ elim (Bool-cases (less name n)) [
    | inl before ↦ rw (other, before) (h, k)
    | inr after ↦ rw (other, after) (k.0, Below-place a name ms d h k.1)
  ]
]

place_master-IsSorted :
    (ms : Masters) (name : List ℕ) (d : Device) → IsSorted ms → IsSorted (place_master ms name d)
unfolding place_master
place_master-IsSorted [] name d s = (tt, tt)
place_master-IsSorted ((n, m) ∷ ms) name d s = elim (Bool-cases (same_text n name)) [
  | inl same ↦ rw same (subst (λ a. Below a ms) (same_text-eq n name same) s.0, s.1)
  | inr other ↦ elim (Bool-cases (less name n)) [
    | inl before ↦ rw (other, before) ((before, Below-less name n ms before s.0), s)
    | inr after ↦
        let up : less n name ≡ true = ground arith in
        rw (other, after) (Below-place n name ms d up s.0, place_master-IsSorted ms name d s.1)
  ]
]

-- Nothing is found of a name that comes before all.
find_master-Below : (ms : Masters) (name : List ℕ) → Below name ms → find_master ms name ≡ none
unfolding find_master
find_master-Below [] name h = refl
find_master-Below ((n, m) ∷ ms) name h =
    let e = h.0 in
    let other : same_text n name ≡ false = ground arith in rw other (find_master-Below ms name h.1)

find_master-place :
    (ms : Masters) (name : List ℕ) (d : Device) → find_master (place_master ms name d) name ≡ some d
unfolding place_master find_master
find_master-place [] name d = rw (same_text_refl name) refl
find_master-place ((n, m) ∷ ms) name d = elim (Bool-cases (same_text n name)) [
  | inl same ↦ rw (same, same_text_refl name) refl
  | inr other ↦ elim (Bool-cases (less name n)) [
    | inl before ↦ rw (other, before, same_text_refl name) refl
    | inr after ↦ rw (other, after) (rw other (find_master-place ms name d))
  ]
]

find_master-place_ne :
    (ms : Masters) (name q : List ℕ) (d : Device)
    → same_text name q ≡ false
    → find_master (place_master ms name d) q ≡ find_master ms q
unfolding place_master find_master
find_master-place_ne [] name q d h = rw h refl
find_master-place_ne ((n, m) ∷ ms) name q d h = elim (Bool-cases (same_text n name)) [
  | inl same ↦
      let different : same_text n q ≡ false =
        subst (λ a. same_text a q ≡ false) (sym (same_text-eq n name same)) h in
      rw same (rw (h, different) refl)
  | inr other ↦ elim (Bool-cases (less name n)) [
    | inl before ↦ rw (other, before) (rw h refl)
    | inr after ↦
        rw (other, after)
          (ap (λ rest. if same_text n q then some m else rest) (find_master-place_ne ms name q d h))
  ]
]

-- `addMaster` on a router that is not open returns. Under that name `master` then gives a new
-- master, and under every other name what it gave before; names that stood in their order, each
-- once, still do.
pub add_master-adds :
    (r : Router) (name q : List ℕ)
    → q ≢ name
    → is_open r.server ≡ false
    → IsSorted r.masters
    → (r' : Router) × (add_master r name ≡ ok r')
      × IsSorted r'.masters
      × (master_at r' name ≡ ok new_device)
      × (master_at r' q ≡ master_at r q)
unfolding add_master master_at
add_master-adds r name q apart closed sorted = (
  record r { masters = place_master r.masters name new_device },
  rw closed refl,
  place_master-IsSorted r.masters name new_device sorted,
  rw (master_at, find_master-place r.masters name new_device) refl,
  rw (master_at, find_master-place_ne r.masters name q new_device different) refl,
)
  where
    different : same_text name q ≡ false
    different = elim (Bool-cases (same_text name q)) [
      | inl same ↦ absurd (apart (sym (same_text-eq name q same)))
      | inr other ↦ other
    ]

-- ===== src/Request/Coils.antt =====
-- The coils of a request: one bit each, eight to a byte.
use libmodbuspp.Base.{
  ℕ, ◌+◌, ◌/◌, ◌%◌, ◌≤◌, ◌<◌, ◌≡◌, ◌≢◌, refl, sym, subst, ap, ◌∙◌, arith, Bool, true, false, not,
  List, length, set, length-set, take, get_elem?, get_elem?-lt, get_elem?-set_self,
  get_elem?-set_ne, ℕ_discrete, some, pos, ok, if◌then◌else◌, ◌==◌, ==_iff, ltb, ltb→lt, IsBytes,
  All, All-set, All-get_elem?, lt-of-get_elem?, Option-cases, inl, inr, [], ◌∷◌, ok-injective,
}
use libmodbuspp.Base.Bits.{tried_below, tried_at}
use libmodbuspp.Base.Loops.{collect-store, store-total}
use libmodbuspp.Message.{Message, byte, set_byte}
use libmodbuspp.Message.Access.{with_byte, byte-at, set_byte-ok}
use libmodbuspp.Request.{
  test_bit, with_bit, coil_value, set_coil_value, coil_values, set_coil_values,
}

eqb : Bool → Bool → Bool
eqb true b = b
eqb false b = not b

eqb→eq : (a b : Bool) → eqb a b ≡ true → a ≡ b
unfolding eqb
eqb→eq a b h = ground arith

bit_table : Bool → Bool
bit_table v = tried_below 256 λ b.
    tried_below 8
      λ i. tried_below 8 λ j. eqb (test_bit (with_bit b i v) j) (if i == j then v else test_bit b j)

bit_tables : (bit_table true ≡ true) × (bit_table false ≡ true)
unfolding bit_table tried_below eqb
bit_tables = (refl, refl)

with_bit_table : Bool → Bool
with_bit_table v = tried_below 256 λ b. tried_below 8 λ i. ltb (with_bit b i v) 256

with_bit_tables : (with_bit_table true ≡ true) × (with_bit_table false ≡ true)
unfolding with_bit_table tried_below
with_bit_tables = (refl, refl)

-- Writing a bit of a byte changes that bit and no other.
pub test_bit-with_bit :
    (b i j : ℕ) (v : Bool)
    → b < 256
    → i < 8
    → j < 8
    → test_bit (with_bit b i v) j ≡ (if i == j then v else test_bit b j)
unfolding bit_table
test_bit-with_bit b i j v hb hi hj = eqb→eq _ _ (at v (whole v))
  where
    at :
        (v : Bool)
        → bit_table v ≡ true
        → eqb (test_bit (with_bit b i v) j) (if i == j then v else test_bit b j) ≡ true
    at v t = tried_at 8 _ j (tried_at 8 _ i (tried_at 256 _ b t hb) hi) hj

    whole : (v : Bool) → bit_table v ≡ true
    whole true = bit_tables.0
    whole false = bit_tables.1

pub with_bit-lt : (b i : ℕ) (v : Bool) → b < 256 → i < 8 → with_bit b i v < 256
unfolding with_bit_table
with_bit-lt b i true hb hi = ltb→lt _ _ (tried_at 8 _ i (tried_at 256 _ b with_bit_tables.0 hb) hi)
with_bit-lt b i false hb hi = ltb→lt _ _ (tried_at 8 _ i (tried_at 256 _ b with_bit_tables.1 hb) hi)

-- The message holds `bound` coils, and its elements are bytes.
abbrev pub HoldsCoils : ℕ → Message → Type 0
HoldsCoils bound m = (m.pdu_begin + 6 + (bound + 7) / 8 ≤ length m.adu) × IsBytes m.adu

-- The index of the byte of a coil.
abbrev place : Message → ℕ → ℕ
place m j = m.pdu_begin + (j / 8 + 6)

set_coil_value-cases :
    (m : Message) (j : ℕ) (v : Bool) {t : Message}
    → set_coil_value m j v ≡ ok t
    → (b : ℕ) × (get_elem? m.adu (place m j) ≡ some b)
      × (place m j < length m.adu)
      × (t ≡ with_byte m (place m j) (with_bit b (j % 8) v))
unfolding set_coil_value
set_coil_value-cases m j v {t} h = elim (Option-cases (get_elem? m.adu (place m j))) [
  | inl e ↦ absurd (unfold byte in cc (rw e at h))
  | inr (b, e) ↦
      let lt : place m j < length m.adu = lt-of-get_elem? m.adu (place m j) e in
      let h' : set_byte m (pos (j / 8 + 6)) (with_bit b (j % 8) v) ≡ ok t =
        rw (byte-at m (pos (j / 8 + 6)) 0 (place m j) refl b e) at h in
      (
        b,
        e,
        lt,
        ok-injective
            (sym h' ∙ set_byte-ok m (pos (j / 8 + 6)) (with_bit b (j % 8) v) (place m j) refl lt),
      )
]

module _ (bound : ℕ) where
  put-HoldsCoils :
      (m : Message) (j : ℕ) (v : Bool) (t : Message)
      → HoldsCoils bound m
      → Unit {0}
      → set_coil_value m j v ≡ ok t
      → HoldsCoils bound t
  put-HoldsCoils m j v t u w h =
      let (b, e, lt, eq) = set_coil_value-cases m j v h in
      let byte : b < 256 = All-get_elem? (λ x. x < 256) m.adu (place m j) b u.1 e in
      let x : ℕ = with_bit b (j % 8) v in
      subst (HoldsCoils bound) (sym eq) (
        omega (arith, u, length-set m.adu (place m j) x),
        All-set (λ x. x < 256) m.adu (place m j) x u.1 (with_bit-lt b (j % 8) v byte (omega arith)),
      )

  put-total :
      (m : Message) (j : ℕ) (v : Bool)
      → HoldsCoils bound m
      → Unit {0}
      → j < bound
      → (t : Message) × (set_coil_value m j v ≡ ok t)
  unfolding set_coil_value
  put-total m j v u w lt =
      let fits : place m j < length m.adu = omega (arith, u) in
      let (b, e) = get_elem?-lt m.adu (place m j) fits in
      (
        with_byte m (place m j) (with_bit b (j % 8) v),
        rw (byte-at m (pos (j / 8 + 6)) 0 (place m j) refl b e)
            (set_byte-ok m (pos (j / 8 + 6)) (with_bit b (j % 8) v) (place m j) refl fits),
      )

coil_value-at :
    (m : Message) (k b : ℕ)
    → get_elem? m.adu (place m k) ≡ some b
    → coil_value m k ≡ ok (test_bit b (k % 8))
unfolding coil_value
coil_value-at m k b e = rw (byte-at m (pos (k / 8 + 6)) 0 (place m k) refl b e)

coil_value-set_self :
    (m : Message) (j : ℕ) (v : Bool) (t : Message)
    → IsBytes m.adu
    → set_coil_value m j v ≡ ok t
    → coil_value t j ≡ ok v
coil_value-set_self m j v t u h =
    let (b, e, lt, eq) = set_coil_value-cases m j v h in
    let byte : b < 256 = All-get_elem? (λ x. x < 256) m.adu (place m j) b u e in
    let x : ℕ = with_bit b (j % 8) v in
    subst (λ s. coil_value s j ≡ ok v) (sym eq)
      (coil_value-at (with_byte m (place m j) x) j x (get_elem?-set_self m.adu (place m j) x lt)
        ∙ ap ok (
            test_bit-with_bit b (j % 8) (j % 8) v byte (omega arith) (omega arith)
            ∙ rw ((==_iff (j % 8) (j % 8)).1 refl)))

coil_value-set_ne :
    (m : Message) (j k : ℕ) (v : Bool) (t : Message)
    → IsBytes m.adu
    → j ≢ k
    → set_coil_value m j v ≡ ok t
    → coil_value t k ≡ coil_value m k
coil_value-set_ne m j k v t u ne h =
    let (b, e, lt, eq) = set_coil_value-cases m j v h in
    let byte : b < 256 = All-get_elem? (λ x. x < 256) m.adu (place m j) b u e in
    let x : ℕ = with_bit b (j % 8) v in
    subst (λ s. coil_value s k ≡ coil_value m k) (sym eq)
      (elim (ℕ_discrete (j / 8) (k / 8)) [
        | yes p ↦
            let at : place m j ≡ place m k = omega arith in
            coil_value-at (with_byte m (place m j) x) k x (
              subst (λ q. get_elem? (set m.adu (place m j) x) q ≡ some x) at
                (get_elem?-set_self m.adu (place m j) x lt))
            ∙ ap ok (
                test_bit-with_bit b (j % 8) (k % 8) v byte (omega arith) (omega arith)
                ∙ other_bit b (j % 8) (k % 8) v (omega arith))
            ∙ sym (coil_value-at m k b (subst (λ q. get_elem? m.adu q ≡ some b) at e))
        | no p ↦
            same_byte m (with_byte m (place m j) x) k
              (get_elem?-set_ne m.adu (place m j) (place m k) x (omega arith))
      ])
  where
    other_bit : (b i j : ℕ) (v : Bool) → i ≢ j → (if i == j then v else test_bit b j) ≡ test_bit b j
    other_bit b i j v ne = ground arith

    same_byte :
        (m t : Message) (k : ℕ)
        → get_elem? t.adu (place t k) ≡ get_elem? m.adu (place m k)
        → coil_value t k ≡ coil_value m k
    same_byte m t k e = unfold coil_value byte in rw e

-- A request whose elements are bytes, with room for the coils from `i` to `i + n`, in the range of
-- `uint16_t`, takes `n` values through `setCoilValues`, and `coilValues` then reads back the same.
pub request_coils_round_trip :
    (m : Message) (i n : ℕ) (values : List Bool)
    → m.pdu_begin + 6 + (i + n + 7) / 8 ≤ length m.adu
    → IsBytes m.adu
    → n ≤ length values
    → i + n ≤ 65536
    → (t : Message) × (set_coil_values m i n values ≡ ok t)
      × (coil_values t i n ≡ ok (take n values))
unfolding coil_values set_coil_values
request_coils_round_trip m i n values u b l fits =
    let (t, stored) =
      store-total coil_value set_coil_value Any (HoldsCoils (i + n)) (put-HoldsCoils (i + n))
        (λ s j v t u w e. coil_value-set_self s j v t u.1 e)
        (λ s j k v t u w ne e. coil_value-set_ne s j k v t u.1 ne e) (i + n) (put-total (i + n)) m i
        0 n values (u, b) (All-Any values) (omega arith) (omega arith) l in
    (
      t,
      stored,
      collect-store coil_value set_coil_value Any (HoldsCoils (i + n)) (put-HoldsCoils (i + n))
          (λ s j v t u w e. coil_value-set_self s j v t u.1 e)
          (λ s j k v t u w ne e. coil_value-set_ne s j k v t u.1 ne e) m i 0 n values (u, b)
          (All-Any values) (omega arith) stored,
    )
  where
    Any : Bool → Type 0
    Any v = Unit {0}

    All-Any : (vs : List Bool) → All Any vs
    All-Any [] = tt
    All-Any (v ∷ vs) = (tt, All-Any vs)

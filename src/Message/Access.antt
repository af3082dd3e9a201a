-- ===== src/Message/Access.antt =====
-- Reading back what the setters of a message write.
use libmodbuspp.Base.{
  ℕ, ◌+◌, ◌-◌, ◌*◌, ◌/◌, ◌%◌, ◌^◌, ◌<◌, max, ◌≡◌, ◌≢◌, ◌⊎◌, inl, inr, Bool-cases, refl, ap, ◌∙◌,
  arith, some, length, length-set, get_elem?, get_elem?-set, get_elem?-set_self, get_elem?-set_ne,
  set, ltb, lt→ltb, if◌then◌else◌, ◌==◌, ℤ, pos, negsuc, ok, fault, ok-injective, sym, subst,
}
use libmodbuspp.Message.{Message, index, byte, word, set_word, set_byte}

-- The message with the two bytes of `v` at the indices `k` and `k + 1`.
abbrev pub with_word : Message → ℕ → ℕ → Message
with_word m k v = record m {
  adu = set (set m.adu k (v / 2 ^ 8 % 2 ^ 8)) (k + 1) (v % 2 ^ 8);
  adu_size = max m.adu_size (k + 2);
}

abbrev pub with_byte : Message → ℕ → ℕ → Message
with_byte m k v = record m { adu = set m.adu k v; adu_size = max m.adu_size (k + 1) }

module _ (m : Message) (i : ℤ) (v k : ℕ) where
  pub set_word-ok : index m i ≡ ok k → k + 1 < length m.adu → set_word m i v ≡ ok (with_word m k v)
  unfolding set_word
  set_word-ok at h = rw (
    at,
    lt→ltb k (length m.adu) (omega arith),
    length-set m.adu k (v / 2 ^ 8 % 2 ^ 8),
    lt→ltb (k + 1) _ h,
  )

  pub set_byte-ok : index m i ≡ ok k → k < length m.adu → set_byte m i v ≡ ok (with_byte m k v)
  unfolding set_byte
  set_byte-ok at h = rw (at, lt→ltb k _ h)

  pub word-at :
      index m i ≡ ok k
      → (h l : ℕ) → get_elem? m.adu k ≡ some h
      → get_elem? m.adu (k + 1) ≡ some l
      → word m i ≡ ok (h * 2 ^ 8 + l)
  unfolding word
  word-at at h l p q = rw (at, p, q)

  pub byte-at : index m i ≡ ok k → (x : ℕ) → get_elem? m.adu k ≡ some x → byte m i ≡ ok x
  unfolding byte
  byte-at at x p = rw (at, p)

  -- What a setter writes is within the message, or it faults.
  pub set_word-in_range :
      {m' : Message} → index m i ≡ ok k → set_word m i v ≡ ok m' → k + 1 < length m.adu
  unfolding set_word
  set_word-in_range at h = ground (arith, length-set m.adu k (v / 2 ^ 8 % 2 ^ 8))

  pub set_byte-in_range :
      {m' : Message} → index m i ≡ ok k → set_byte m i v ≡ ok m' → k < length m.adu
  unfolding set_byte
  set_byte-in_range at h = ground arith

module _ (m : Message) (k v j : ℕ) where
  pub get_elem?-with_word :
      k + 1 < length m.adu
      → get_elem? (with_word m k v).adu j ≡ (
          if k + 1 == j
          then some (v % 2 ^ 8)
          else (if k == j then some (v / 2 ^ 8 % 2 ^ 8) else get_elem? m.adu j))
  get_elem?-with_word h = ground (
    arith,
    get_elem?-set (set m.adu k (v / 2 ^ 8 % 2 ^ 8)) (k + 1) (v % 2 ^ 8) j,
    get_elem?-set m.adu k (v / 2 ^ 8 % 2 ^ 8) j,
    length-set m.adu k (v / 2 ^ 8 % 2 ^ 8),
  )

-- The place of an offset does not depend on the bytes.
pub index-adu : (m m' : Message) (i : ℤ) → m.pdu_begin ≡ m'.pdu_begin → index m i ≡ index m' i
index-adu m m' (pos n) h = ground arith
index-adu m m' (negsuc n) h = ground arith

pub index-cases : (m : Message) (i : ℤ) → (index m i ≡ fault) ⊎ ((k : ℕ) × (index m i ≡ ok k))
index-cases m (pos n) = inr (m.pdu_begin + n, refl)
index-cases m (negsuc n) = elim (Bool-cases (ltb n m.pdu_begin)) [
  | inl e ↦ inr (m.pdu_begin - 1 - n, rw e)
  | inr e ↦ inl (rw e)
]

module _ (m : Message) (i : ℤ) (v : ℕ) {t : Message} where
  -- A setter that returns has written at the place of its offset.
  pub set_word-cases :
      set_word m i v ≡ ok t
      → (k : ℕ) × (index m i ≡ ok k) × (k + 1 < length m.adu) × (t ≡ with_word m k v)
  set_word-cases h = elim (index-cases m i) [
    | inl bad ↦ absurd (unfold set_word in cc (rw bad at h))
    | inr (k, at) ↦ (
      k,
      at,
      set_word-in_range m i v k at h,
      ok-injective (sym h ∙ set_word-ok m i v k at (set_word-in_range m i v k at h)),
    )
  ]

  pub set_byte-cases :
      set_byte m i v ≡ ok t
      → (k : ℕ) × (index m i ≡ ok k) × (k < length m.adu) × (t ≡ with_byte m k v)
  set_byte-cases h = elim (index-cases m i) [
    | inl bad ↦ absurd (unfold set_byte in cc (rw bad at h))
    | inr (k, at) ↦ (
      k,
      at,
      set_byte-in_range m i v k at h,
      ok-injective (sym h ∙ set_byte-ok m i v k at (set_byte-in_range m i v k at h)),
    )
  ]

-- A word of 16 bits that `set_word` wrote, without leaving the buffer, is read back.
pub word-set_word :
    (m : Message) (i : ℤ) (v : ℕ) {t : Message}
    → v < 65536
    → set_word m i v ≡ ok t
    → word t i ≡ ok v
word-set_word m i v {t} lt h =
    let (k, at, fits, e) = set_word-cases m i v h in
    subst (λ s. word s i ≡ ok v) (sym e)
      (word-at (with_word m k v) i v k (index-adu (with_word m k v) m i refl ∙ at)
          (v / 2 ^ 8 % 2 ^ 8) (v % 2 ^ 8) (ground (arith, get_elem?-with_word m k v k fits))
          (ground (arith, get_elem?-with_word m k v (k + 1) fits))
        ∙ ap ok (omega arith))

-- Reads by index: equal bytes at the two indices are an equal word.
word-by :
    (m t : Message) (j : ℤ) (q : ℕ)
    → index m j ≡ ok q
    → index t j ≡ ok q
    → get_elem? t.adu q ≡ get_elem? m.adu q
    → get_elem? t.adu (q + 1) ≡ get_elem? m.adu (q + 1)
    → word t j ≡ word m j
unfolding word
word-by m t j q a b h l = rw (a, b, h, l)

byte-by :
    (m t : Message) (j : ℤ) (q : ℕ)
    → index m j ≡ ok q
    → index t j ≡ ok q
    → get_elem? t.adu q ≡ get_elem? m.adu q
    → byte t j ≡ byte m j
unfolding byte
byte-by m t j q a b h = rw (a, b, h)

-- A word is left alone by a `set_word` that returns and whose place in the buffer it does not
-- overlap.
pub word-set_word_ne :
    (m : Message) (i j : ℤ) (v : ℕ) {t : Message} (k q : ℕ)
    → index m i ≡ ok k
    → index m j ≡ ok q
    → (q + 1 < k) ⊎ (k + 1 < q)
    → set_word m i v ≡ ok t
    → word t j ≡ word m j
word-set_word_ne m i j v {t} k q a b apart h =
    let fits : k + 1 < length m.adu = set_word-in_range m i v k a h in
    let e : t ≡ with_word m k v = ok-injective (sym h ∙ set_word-ok m i v k a fits) in
    subst (λ s. word s j ≡ word m j) (sym e)
      (word-by m (with_word m k v) j q b (index-adu (with_word m k v) m j refl ∙ b)
        (ground (arith, get_elem?-with_word m k v q fits))
        (ground (arith, get_elem?-with_word m k v (q + 1) fits)))

-- A byte that `set_byte` wrote is read back.
pub byte-set_byte :
    (m : Message) (i : ℤ) (v : ℕ) {t : Message} → set_byte m i v ≡ ok t → byte t i ≡ ok v
byte-set_byte m i v {t} h =
    let (k, at, fits, e) = set_byte-cases m i v h in
    subst (λ s. byte s i ≡ ok v) (sym e)
      (byte-at (with_byte m k v) i v k (index-adu (with_byte m k v) m i refl ∙ at) v
        (get_elem?-set_self m.adu k v fits))

-- A byte that stands elsewhere is left alone by `set_byte`.
pub byte-set_byte_ne :
    (m : Message) (i j : ℤ) (v : ℕ) {t : Message} (k q : ℕ)
    → index m i ≡ ok k
    → index m j ≡ ok q
    → k ≢ q
    → set_byte m i v ≡ ok t
    → byte t j ≡ byte m j
byte-set_byte_ne m i j v {t} k q a b apart h =
    let fits : k < length m.adu = set_byte-in_range m i v k a h in
    let e : t ≡ with_byte m k v = ok-injective (sym h ∙ set_byte-ok m i v k a fits) in
    subst (λ s. byte s j ≡ byte m j) (sym e)
      (byte-by m (with_byte m k v) j q b (index-adu (with_byte m k v) m j refl ∙ b)
        (get_elem?-set_ne m.adu k q v apart))

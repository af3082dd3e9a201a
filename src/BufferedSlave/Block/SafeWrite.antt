-- ===== src/BufferedSlave/Block/SafeWrite.antt =====
-- The writes of a whole table touch no memory but its own, whether or not the device is open.
use libmodbuspp.Base.{
  ℕ, ◌+◌, ◌-◌, ◌≤◌, min, ◌≡◌, refl, ap, ◌∙◌, arith, Bool, true, List, [], ◌∷◌, length, take, splice,
  length-splice, length-take, some, ℤ, pos, ◌-ℤ◌, eqb_ℤ, Outcome, ok, ◌>>=◌, if◌then◌else◌, Returns,
  Returns-ok, Returns-at, Returns-test, Returns-bind, Option,
}
use libmodbuspp.BufferedSlave.Block.{
  Block, in_block, clipped, copy_from, first, write_remote, write_block, store_block,
}
use libmodbuspp.BufferedSlave.Block.Valid.{
  Holds, offset-at, clipped-at, copy_from-held, with_elements,
}
use libmodbuspp.BufferedSlave.Block.Whole.{
  IsWhole, Keeps, Within, with_elements-Keeps, in_block-Within,
}
use libmodbuspp.BufferedSlave.Block.Safe.{copied, elements-Holds}
use Prim.{Unit, tt}

-- The call returns, whatever it is given.
abbrev pub IsCall : {A B : Type 0} → (A → Outcome B) → Type 0
IsCall {A} f = (a : A) → Returns (λ _. Unit {0}) (f a)

-- What a write leaves: a table at its place.
abbrev pub WriteKeeps : {W : Type 0} → Block → Block × W × ℤ → Type 0
WriteKeeps b r = Keeps b r.0

pub first-one : (ys : List ℕ) → length ys ≡ 1 → Returns (λ _. Unit {0}) (first ys)
first-one [] e = absurd (omega (arith, e))
first-one (y ∷ ys) e = Returns-ok tt

module _ (b : Block) (xs : List ℕ) (v : Holds b xs) (k m : ℕ) (h : k + m ≤ length xs) where
  pub from-held :
      (src : List ℕ)
      → m ≤ length src
      → Returns
          (λ tab. (zs : List ℕ) × (tab ≡ some zs) × (length zs ≡ length xs))
          (copy_from b.tab (pos k) src (pos m))
  from-held src l =
      let size : length (take m src) ≡ m = omega (arith, length-take m src) in
      Returns-at (ap (λ t. copy_from t (pos k) src (pos m)) v.held ∙ copy_from-held xs src k m l h)
        (splice xs k (take m src), refl, length-splice xs k (take m src) (omega arith))

  sent-Keeps :
      {W : Type 0} (one : W → ℕ → Outcome (W × ℤ)) (many : W → List ℕ → ℤ → Outcome (W × ℤ))
      (b' : Block) (zs : List ℕ) (w : W)
      → ((w : W) → IsCall (one w))
      → ((w : W) (xs : List ℕ) → IsCall (many w xs))
      → Holds b' zs
      → length zs ≡ length xs
      → Keeps b b'
      → Returns (WriteKeeps b) (write_remote b' one many w (pos k) (pos m))
  unfolding write_remote
  sent-Keeps one many b' zs w one_returns many_returns v' e kept =
      Returns-bind (copied b xs v k m h b' zs v' e) λ ys size.
        Returns-test (eqb_ℤ (pos m) (pos 1))
          (λ single.
            Returns-bind (first-one ys (ground arith))
              λ x _. Returns-bind (one_returns w x) λ r _. Returns-ok kept)
          λ several. Returns-bind (many_returns w ys (pos m)) λ r _. Returns-ok kept

module _ {W : Type 0} (set_einval : W → W) (b : Block) (whole : IsWhole b) (w : W) (addr : ℤ)
    (src : List ℕ) (n : ℕ) (enough : n ≤ length src) where
  -- The copy into the table, and what follows it.
  found-WriteKeeps :
      (next : ℤ → ℤ → Option (List ℕ) → Outcome (Block × W × ℤ)) (p : Within b addr)
      → ((k m : ℕ) (zs : List ℕ)
          → k + m ≤ length p.elements
          → length zs ≡ length p.elements
          → Returns (WriteKeeps b) (next (pos k) (pos m) (some zs)))
      → Returns (WriteKeeps b) (
          let offset = addr -ℤ b.start in
          let m = clipped b offset (pos n) in copy_from b.tab offset src m >>= next offset m)
  found-WriteKeeps next p follows =
      let xs = p.elements in
      let v = p.holds in
      let k = p.index in
      let m : ℕ = min n (length xs - k) in
      rw (p.at, offset-at b xs v k, clipped-at b xs v k n p.inside)
        (Returns-bind (from-held b xs v k m (omega (arith, p.inside)) src (omega arith))
          λ tab stored. rw (stored.1) (follows k m stored.0 (omega (arith, p.inside)) stored.2))

  pub write_block-WriteKeeps :
      (opened : Bool) (one : W → ℕ → Outcome (W × ℤ)) (many : W → List ℕ → ℤ → Outcome (W × ℤ))
      → (opened ≡ true → (w : W) → IsCall (one w))
      → (opened ≡ true → (w : W) (xs : List ℕ) → IsCall (many w xs))
      → Returns (WriteKeeps b) (write_block set_einval b opened one many w addr src (pos n))
  unfolding write_block
  write_block-WriteKeeps opened one many one_returns many_returns =
      Returns-test (in_block b addr)
        (λ within.
          let p : Within b addr = in_block-Within b addr whole within in
          found-WriteKeeps
            (λ offset m tab'.
              let b' = record b { tab = tab' } in
              if opened then write_remote b' one many w offset m else ok (b', w, m))
            p
            λ k m zs h e.
              let xs = p.elements in
              let kept = with_elements-Keeps b xs zs p.holds e in
              Returns-test opened
                (λ o.
                  sent-Keeps b xs p.holds k m h one many (with_elements b zs) zs w (one_returns o)
                    (many_returns o) (elements-Holds b xs p.holds k m h zs e) e kept)
                λ closed. Returns-ok kept)
        λ without. Returns-ok record { whole = whole; same_nb = refl; same_start = refl }

  pub store_block-WriteKeeps : Returns (WriteKeeps b) (store_block set_einval b w addr src (pos n))
  unfolding store_block
  store_block-WriteKeeps =
      Returns-test (in_block b addr)
        (λ within.
          let p : Within b addr = in_block-Within b addr whole within in
          found-WriteKeeps (λ offset m tab'. ok (record b { tab = tab' }, w, m)) p
            λ k m zs h e. Returns-ok (with_elements-Keeps b p.elements zs p.holds e))
        λ without. Returns-ok record { whole = whole; same_nb = refl; same_start = refl }

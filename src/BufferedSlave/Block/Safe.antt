-- ===== src/BufferedSlave/Block/Safe.antt =====
-- The accesses of a whole table touch no memory but its own, whether or not the device is open.
use libmodbuspp.Base.{
  ℕ, ◌+◌, ◌-◌, ◌≤◌, min, ◌≡◌, refl, sym, ap, ◌∙◌, subst, arith, Bool, true, ◌⊎◌, inl, inr, List, [],
  ◌∷◌, length, take, drop, splice, length-splice, length-take, length-drop, some, ℤ, pos, ◌-ℤ◌,
  ltb_ℤ, le→leb, Outcome, if◌then◌else◌, Returns, Returns-ok, Returns-at, Returns-test,
  Returns-bind, Returns-map,
}
use libmodbuspp.BufferedSlave.Block.{
  Block, in_block, clipped, copy_out, copy_in, read_local, read_remote, read_block,
}
use libmodbuspp.BufferedSlave.Block.Valid.{
  Holds, offset-at, clipped-at, copy_out-held, with_elements,
}
use libmodbuspp.BufferedSlave.Block.Whole.{
  IsWhole, Keeps, Within, with_elements-Keeps, in_block-Within,
}
use libmodbuspp.Slave.{Reply}

-- What a read of at most `n` values leaves: a table at its place, and in `dest` either as many
-- values as the result says, or none and a negative result.
pub record ReadKeeps {W : Type 0} (b : Block) (n : ℕ) (r : Block × W × ℤ × List ℕ) : Type 0 where
  pub keeps : Keeps b r.0
  pub fits : length (r.3) ≤ n
  pub told : (r.2 ≡ pos (length (r.3))) ⊎ ((ltb_ℤ r.2 (pos 0) ≡ true) × (r.3 ≡ []))

-- The values that the device stores fit into what is asked for.
abbrev pub Fits : {W : Type 0} → ℕ → W × Reply → Type 0
Fits n r = length (r.1.stored) ≤ n

copy_in-held :
    (xs ys : List ℕ) (k : ℕ)
    → k + length ys ≤ length xs
    → Returns
        (λ tab. (zs : List ℕ) × (tab ≡ some zs) × (length zs ≡ length xs))
        (copy_in (some xs) (pos k) ys)
unfolding copy_in
copy_in-held xs [] k h = Returns-ok (xs, refl, refl)
copy_in-held xs (y ∷ ys) k h =
    rw (le→leb (k + length (y ∷ ys)) (length xs) h)
      (Returns-ok (splice xs k (y ∷ ys), refl, length-splice xs k (y ∷ ys) h))

module _ (b : Block) (xs : List ℕ) (v : Holds b xs) (k m : ℕ) (h : k + m ≤ length xs) where
  pub elements-Holds : (zs : List ℕ) → length zs ≡ length xs → Holds (with_elements b zs) zs
  elements-Holds zs e = record { held = refl; sized = v.sized ∙ ap pos (sym e) }

  taken : (zs : List ℕ) → length zs ≡ length xs → length (take m (drop k zs)) ≡ m
  taken zs e = omega (arith, length-take m (drop k zs), length-drop k zs)

  pub stored-held :
      (ys : List ℕ)
      → length ys ≤ m
      → Returns
          (λ tab. (zs : List ℕ) × (tab ≡ some zs) × (length zs ≡ length xs))
          (copy_in b.tab (pos k) ys)
  stored-held ys l =
      subst
        (λ t.
          Returns (λ tab. (zs : List ℕ) × (tab ≡ some zs) × (length zs ≡ length xs))
            (copy_in t (pos k) ys))
        (sym v.held) (copy_in-held xs ys k (omega arith))

  pub copied :
      (b' : Block) (zs : List ℕ)
      → Holds b' zs
      → length zs ≡ length xs
      → Returns (λ ys. length ys ≡ m) (copy_out b'.tab (pos k) (pos m))
  copied b' zs v' e =
      Returns-at
        (ap (λ t. copy_out t (pos k) (pos m)) v'.held ∙ copy_out-held zs k m (omega (arith, e, h)))
        (taken zs e)

  local-ReadKeeps :
      {W : Type 0} (b' : Block) (zs : List ℕ) (w : W)
      → Holds b' zs
      → length zs ≡ length xs
      → Keeps b b'
      → Returns (ReadKeeps b m) (read_local b' w (pos k) (pos m))
  unfolding read_local
  local-ReadKeeps b' zs w v' e kept = Returns-bind (copied b' zs v' e) λ ys size.
      Returns-ok record { keeps = kept; fits = omega (arith, size); told = inl (ap pos (sym size)) }

  remote-ReadKeeps :
      {W : Type 0} (remote : W → ℤ → Outcome (W × Reply)) (w : W)
      → Returns (Fits m) (remote w (pos m))
      → Returns (ReadKeeps b m) (read_remote b remote w (pos k) (pos m))
  unfolding read_remote
  remote-ReadKeeps remote w asked = Returns-bind asked λ r fits.
      (Returns-bind (stored-held r.1.stored (omega arith)) λ tab stored. rw (stored.1) (
        Returns-test (ltb_ℤ r.1.rc (pos 0))
          (λ failed. Returns-ok record {
            keeps = with_elements-Keeps b xs stored.0 v stored.2;
            fits = omega arith;
            told = inr (failed, refl);
          })
          λ fine.
            local-ReadKeeps (with_elements b stored.0) stored.0 r.0
              (elements-Holds stored.0 stored.2) stored.2
              (with_elements-Keeps b xs stored.0 v stored.2)))

-- What the device is asked for is answered by at most as many values.
abbrev pub IsRemote : {W : Type 0} → (W → ℤ → Outcome (W × Reply)) → Type 0
IsRemote {W} remote = (w : W) (m : ℕ) → Returns (Fits m) (remote w (pos m))

module _ {W : Type 0} (set_einval : W → W) (b : Block) (whole : IsWhole b) (opened : Bool) (w : W)
    (addr : ℤ) (n : ℕ) where
  unchanged-Keeps : Keeps b b
  unchanged-Keeps = record { whole = whole; same_nb = refl; same_start = refl }

  found-ReadKeeps :
      (remote : W → ℤ → Outcome (W × Reply))
      → (opened ≡ true → IsRemote remote)
      → Within b addr
      → Returns (ReadKeeps b n) (
          let offset = addr -ℤ b.start in
          let m = clipped b offset (pos n) in
          if opened then read_remote b remote w offset m else read_local b w offset m)
  found-ReadKeeps remote asked p =
      let xs = p.elements in
      let v = p.holds in
      let k = p.index in
      let h = p.inside in
      let m : ℕ = min n (length xs - k) in
      let fewer : (r : Block × W × ℤ × List ℕ) → ReadKeeps b m r → ReadKeeps b n r = λ r kept.
        record { keeps = kept.keeps; fits = omega (arith, kept.fits); told = kept.told } in
      rw (p.at, offset-at b xs v k, clipped-at b xs v k n h)
        (Returns-map fewer (
          Returns-test opened
            (λ o. remote-ReadKeeps b xs v k m (omega arith) remote w (asked o w m))
            λ closed. local-ReadKeeps b xs v k m (omega arith) b xs w v refl unchanged-Keeps))

  pub read_block-ReadKeeps :
      (remote : W → ℤ → Outcome (W × Reply))
      → (opened ≡ true → IsRemote remote)
      → Returns (ReadKeeps b n) (read_block set_einval b opened remote w addr (pos n))
  unfolding read_block
  read_block-ReadKeeps remote asked =
      Returns-test (in_block b addr)
        (λ within. found-ReadKeeps remote asked (in_block-Within b addr whole within))
        λ without.
          Returns-ok record { keeps = unchanged-Keeps; fits = omega arith; told = inr (refl, refl) }

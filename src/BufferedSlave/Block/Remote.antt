-- ===== src/BufferedSlave/Block/Remote.antt =====
-- The accesses of a whole table while the device is open and answers.
use libmodbuspp.Base.{
  ℕ, ◌+◌, ◌-◌, ◌≤◌, ◌<◌, min, ◌≡◌, refl, sym, ap, ◌∙◌, arith, Bool, true, false, List, [], ◌∷◌,
  length, take, drop, splice, length-splice, length-take, take-drop-splice, some, ℤ, pos, ◌+ℤ◌,
  ltb_ℤ, eqb_ℤ, le→leb, Outcome, ok, ◌>>=◌, if◌then◌else◌,
}
use libmodbuspp.BufferedSlave.Block.{
  Block, copy_out, copy_in, read_local, read_remote, read_block, write_remote, write_block, first,
}
use libmodbuspp.BufferedSlave.Block.Valid.{
  Holds, in_block-at, offset-at, clipped-at, copy_out-held, copy_from-held, with_elements,
}
use libmodbuspp.Slave.{Reply}

copy_in-held :
    (xs ys : List ℕ) (k : ℕ)
    → k + length ys ≤ length xs
    → 0 < length ys
    → copy_in (some xs) (pos k) ys ≡ ok (some (splice xs k ys))
unfolding copy_in
copy_in-held xs [] k h p = absurd (omega (arith, p))
copy_in-held xs (y ∷ ys) k h p = rw (le→leb (k + length (y ∷ ys)) (length xs) h) refl

pub take-drop-whole :
    (xs ys : List ℕ) (k m : ℕ)
    → length ys ≡ m
    → k + m ≤ length xs
    → take m (drop k (splice xs k ys)) ≡ ys
take-drop-whole xs ys k m e h =
    ap (λ i. take i (drop k (splice xs k ys))) (sym e) ∙ take-drop-splice xs k ys (omega (arith, e))

-- What is sent of `m` values that were stored.
abbrev pub sent :
    {W : Type 0}
    → W
    → ℕ
    → (W → ℕ → Outcome (W × ℤ))
    → (W → List ℕ → ℤ → Outcome (W × ℤ))
    → List ℕ
    → Outcome (W × ℤ)
sent w m one many [] = many w [] (pos m)
sent w m one many (x ∷ ys) = if eqb_ℤ (pos m) (pos 1) then one w x else many w (x ∷ ys) (pos m)

module _ {W : Type 0} (set_einval : W → W) (b : Block) (xs : List ℕ) (v : Holds b xs) (w : W)
    (k n : ℕ) (inside : k < length xs) (some_asked : 0 < n) where
  abbrev m : ℕ
  m = min n (length xs - k)

  -- A read goes to the device; what it answers is stored in the table, and returned.
  pub read_block-open :
      (remote : W → ℤ → Outcome (W × Reply)) (w' : W) (r : Reply)
      → remote w (pos m) ≡ ok (w', r)
      → ltb_ℤ r.rc (pos 0) ≡ false
      → length r.stored ≡ m
      → read_block set_einval b true remote w (b.start +ℤ pos k) (pos n)
        ≡ ok (with_elements b (splice xs k r.stored), w', pos m, r.stored)
  unfolding read_block read_remote read_local
  read_block-open remote w' r answers fine full =
      let ys = r.stored in
      let zs = splice xs k ys in
      let stored : copy_in (some xs) (pos k) ys ≡ ok (some zs) =
        copy_in-held xs ys k (omega (arith, full, inside))
          (omega (arith, full, inside, some_asked)) in
      let back : copy_out (some zs) (pos k) (pos m) ≡ ok ys =
        copy_out-held zs k m
          (omega (arith, inside, length-splice xs k ys (omega (arith, full, inside))))
        ∙ ap ok (take-drop-whole xs ys k m full (omega (arith, inside))) in
      rw
        (
          in_block-at b xs v k inside,
          offset-at b xs v k,
          clipped-at b xs v k n inside,
          answers,
          v.held,
          stored,
          fine,
          back,
        )
        refl

  -- A write goes to the table and then, with the values that fit, to the device.
  pub write_block-open :
      (one : W → ℕ → Outcome (W × ℤ)) (many : W → List ℕ → ℤ → Outcome (W × ℤ)) (src : List ℕ)
      → n ≤ length src
      → write_block set_einval b true one many w (b.start +ℤ pos k) src (pos n) ≡ (
          sent w m one many (take m src) >>= λ r.
          ok (with_elements b (splice xs k (take m src)), r.0, r.1))
  unfolding write_block write_remote
  write_block-open one many src enough =
      let ys = take m src in
      let full : length ys ≡ m = omega (arith, length-take m src, enough) in
      let zs = splice xs k ys in
      let back : copy_out (some zs) (pos k) (pos m) ≡ ok ys =
        copy_out-held zs k m
          (omega (arith, inside, length-splice xs k ys (omega (arith, full, inside))))
        ∙ ap ok (take-drop-whole xs ys k m full (omega (arith, inside))) in
      rw
        (
          in_block-at b xs v k inside,
          offset-at b xs v k,
          clipped-at b xs v k n inside,
          v.held,
          copy_from-held xs src k m (omega (arith, enough)) (omega (arith, inside)),
          back,
        )
        (passed ys full zs)
    where
      through : List ℕ → W × ℤ → Outcome (Block × W × ℤ)
      through zs r = ok (with_elements b zs, r.0, r.1)

      passed :
          (ys : List ℕ)
          → length ys ≡ m
          → (zs : List ℕ)
          → (if eqb_ℤ (pos m) (pos 1)
              then (first ys >>= λ x. one w x >>= through zs)
              else (many w ys (pos m) >>= through zs))
            ≡ (sent w m one many ys >>= through zs)
      passed [] e zs = absurd (omega (arith, e, some_asked, inside))
      passed (x ∷ ys) e zs = split (eqb_ℤ (pos m) (pos 1))
        where
          split :
              (single : Bool)
              → (if single
                  then (one w x >>= through zs)
                  else (many w (x ∷ ys) (pos m) >>= through zs))
                ≡ ((if single then one w x else many w (x ∷ ys) (pos m)) >>= through zs)
          split true = refl
          split false = refl

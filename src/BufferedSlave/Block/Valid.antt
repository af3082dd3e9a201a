-- ===== src/BufferedSlave/Block/Valid.antt =====
-- A table that is whole: its size is that of the memory behind it.
use libmodbuspp.Base.{
  ℕ, ◌+◌, ◌-◌, ◌≤◌, ◌<◌, min, ◌≡◌, arith, true, false, List, length, take, drop, splice, some, ℤ,
  pos, ◌+ℤ◌, ◌-ℤ◌, le→leb, Outcome, ok,
}
use libmodbuspp.BufferedSlave.Block.{
  Block, in_block, clipped, copy_out, copy_from, read_local, read_block, write_block, store_block,
}
use libmodbuspp.Slave.{Reply}

-- `xs` are the elements of the table.
pub record Holds (b : Block) (xs : List ℕ) : Type 0 where
  pub held : b.tab ≡ some xs
  pub sized : b.nb ≡ pos (length xs)

module _ (b : Block) (xs : List ℕ) (v : Holds b xs) (k : ℕ) where
  abbrev at : ℤ
  at = b.start +ℤ pos k

  pub in_block-at : k < length xs → in_block b at ≡ true
  unfolding in_block ◌+ℤ◌
  in_block-at h = rw (v.sized) (ground arith)

  pub offset-at : at -ℤ b.start ≡ pos k
  unfolding ◌+ℤ◌ ◌-ℤ◌
  offset-at = ground arith

  pub clipped-at : (n : ℕ) → k < length xs → clipped b (pos k) (pos n) ≡ pos (min n (length xs - k))
  unfolding clipped ◌-ℤ◌
  clipped-at n h = rw (v.sized) (ground arith)

pub copy_out-held :
    (xs : List ℕ) (k m : ℕ)
    → k + m ≤ length xs
    → copy_out (some xs) (pos k) (pos m) ≡ ok (take m (drop k xs))
unfolding copy_out
copy_out-held xs k m h = rw (le→leb (k + m) (length xs) h)

pub copy_from-held :
    (xs src : List ℕ) (k m : ℕ)
    → m ≤ length src
    → k + m ≤ length xs
    → copy_from (some xs) (pos k) src (pos m) ≡ ok (some (splice xs k (take m src)))
unfolding copy_from
copy_from-held xs src k m l h = rw (le→leb m (length src) l, le→leb (k + m) (length xs) h)

-- The table with these elements.
abbrev pub with_elements : Block → List ℕ → Block
with_elements b ys = record b { tab = some ys }

module _ {W : Type 0} (set_einval : W → W) (b : Block) (xs : List ℕ) (v : Holds b xs) (w : W) where
  -- A read of a slave whose device is not open: the elements from the address on, at most as many
  -- as are asked for and as are there.
  pub read_block-closed :
      (remote : W → ℤ → Outcome (W × Reply)) (k n : ℕ)
      → k < length xs
      → read_block set_einval b false remote w (b.start +ℤ pos k) (pos n)
        ≡ (let m = min n (length xs - k) in ok (b, w, pos m, take m (drop k xs)))
  unfolding read_block read_local
  read_block-closed remote k n h = rw (
    in_block-at b xs v k h,
    offset-at b xs v k,
    clipped-at b xs v k n h,
    v.held,
    copy_out-held xs k (min n (length xs - k)) (omega arith),
  )

  pub store_block-at :
      (src : List ℕ) (k n : ℕ)
      → k < length xs
      → n ≤ length src
      → store_block set_einval b w (b.start +ℤ pos k) src (pos n) ≡ (
          let m = min n (length xs - k) in
          ok (with_elements b (splice xs k (take m src)), w, pos m))
  unfolding store_block
  store_block-at src k n h l = rw (
    in_block-at b xs v k h,
    offset-at b xs v k,
    clipped-at b xs v k n h,
    v.held,
    copy_from-held xs src k (min n (length xs - k)) (omega arith) (omega arith),
  )

  pub write_block-closed :
      (one : W → ℕ → Outcome (W × ℤ)) (many : W → List ℕ → ℤ → Outcome (W × ℤ)) (src : List ℕ)
      (k n : ℕ)
      → k < length xs
      → n ≤ length src
      → write_block set_einval b false one many w (b.start +ℤ pos k) src (pos n) ≡ (
          let m = min n (length xs - k) in
          ok (with_elements b (splice xs k (take m src)), w, pos m))
  unfolding write_block
  write_block-closed one many src k n h l = rw (
    in_block-at b xs v k h,
    offset-at b xs v k,
    clipped-at b xs v k n h,
    v.held,
    copy_from-held xs src k (min n (length xs - k)) (omega arith) (omega arith),
  )

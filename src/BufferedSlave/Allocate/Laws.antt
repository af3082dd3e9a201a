-- ===== src/BufferedSlave/Allocate/Laws.antt =====
-- What `setBlock` does to a table that is in use.
use libmodbuspp.Base.{
  ℕ, ◌+◌, ◌-◌, ◌*◌, ◌%◌, ◌^◌, ◌≤◌, ◌<◌, ◌≡◌, ◌≢◌, sym, ap, ◌∙◌, arith, true, false, List, [], ◌++◌,
  length, length-append, length-take, length-replicate, take, drop, replicate, resize, take-append,
  take-ge, drop-ge, take-append_le, some, none, ℤ, pos, to_size, ltb_ℤ, eqb_ℤ, le→leb, lt→leb_false,
  ap₂, Option, Outcome, ok, fault, ◌>>=◌, if◌then◌else◌, ◌+ℤ◌, dec_lt,
}
use mathlib.Core.List.{append-nil}
use libmodbuspp.Slave.{Slave, Reply, minus_one, pdu_address}
use libmodbuspp.BufferedSlave.Block.{Block, in_block, read_block, read_local, copy_out}
use libmodbuspp.BufferedSlave.Block.Valid.{Holds, in_block-at}
use libmodbuspp.BufferedSlave.Allocate.{
  Allocator, clear_from, realloc, resize_tab, resized, cleared_growth, set_table, set_bit_table,
  set_register_table,
}

-- The allocator leaves as much unwritten memory as it was asked for.
abbrev pub IsMemory : Allocator → Type 0
IsMemory al = (n : ℕ) → length (al.junk n) ≡ n

module _ (al : Allocator) (memory : IsMemory al) (xs : List ℕ) (n : ℕ) where
  abbrev moved : List ℕ
  moved = take n (xs ++ al.junk (n - length xs))

  length-moved : length moved ≡ n
  length-moved = omega (
    arith,
    length-take n (xs ++ al.junk (n - length xs)),
    length-append xs (al.junk (n - length xs)),
    memory (n - length xs),
  )

  moved-grown : length xs < n → moved ≡ xs ++ al.junk (n - length xs)
  moved-grown h =
      take-ge n (xs ++ al.junk (n - length xs))
        (omega (arith, length-append xs (al.junk (n - length xs)), memory (n - length xs)))

  pub moved-shrunk : n ≤ length xs → moved ≡ take n xs
  moved-shrunk h = take-append_le n xs (al.junk (n - length xs)) h

  -- Clearing from the old size on fills exactly the growth.
  pub cleared :
      length xs < n
      → clear_from moved (length xs) (n - length xs) ≡ ok (xs ++ replicate (n - length xs) 0)
  unfolding clear_from
  cleared h =
      let fill : List ℕ = replicate (n - length xs) 0 in
      let e : length fill ≡ n - length xs = length-replicate (n - length xs) 0 in
      let front : take (length xs) moved ≡ xs =
        ap (take (length xs)) (moved-grown h) ∙ take-append xs (al.junk (n - length xs)) in
      let back : drop (length xs + length fill) moved ≡ [] =
        drop-ge (length xs + length fill) moved (omega (arith, length-moved)) in
      rw (le→leb (length xs + (n - length xs)) (length moved) (omega (arith, length-moved)))
        (ap₂ (λ a b. ok (a ++ (fill ++ b))) front back ∙ ap (λ t. ok (xs ++ t)) (append-nil fill))

  -- Clearing from twice the old size on passes the end.
  pub cleared_past_end :
      0 < length xs → length xs < n → clear_from moved (length xs * 2) (n - length xs) ≡ fault
  unfolding clear_from
  cleared_past_end p h =
      rw (
        lt→leb_false (length xs * 2 + (n - length xs)) (length moved) (omega (arith, length-moved)))

lt_pos : (a b : ℕ) → a < b → ltb_ℤ (pos a) (pos b) ≡ true
lt_pos a b h = ground arith

ge_pos : (a b : ℕ) → b ≤ a → ltb_ℤ (pos a) (pos b) ≡ false
ge_pos a b h = ground arith

neq_pos : (a b : ℕ) → a ≢ b → eqb_ℤ (pos a) (pos b) ≡ false
neq_pos a b h = ground arith

-- A size that differs and is not zero goes to the allocator, which refuses it, or grants it.
module _ (al : Allocator) (memory : IsMemory al) (s : Slave) (b : Block) (xs : List ℕ)
    (v : Holds b xs) (addr : ℤ) (n : ℕ) (some_new : 0 < n) (other_size : n ≢ length xs)
    (width from : ℕ) where
  abbrev moved_to : Outcome (Option (List ℕ))
  moved_to =
      if ltb_ℤ (pos (length xs)) (pos n)
      then (clear_from (moved al memory xs n) from (n - length xs) >>= λ zs. ok (some zs))
      else ok (some (moved al memory xs n))

  set_table-resizes : set_table al width from s b addr (pos n) ≡ (
      resize_tab al width from (pos (length xs)) (some xs) (pos n) >>= λ tab.
      ok (resized s b addr (pos n) tab))
  unfolding set_table
  set_table-resizes =
      let differs : eqb_ℤ b.nb (pos n) ≡ false =
        ap (λ z. eqb_ℤ z (pos n)) v.sized ∙ neq_pos (length xs) n (omega arith) in
      rw (neq_pos n 0 (omega arith), differs)
        (ap₂
          (λ nb t.
            resize_tab al width from nb t (pos n) >>= λ tab. ok (resized s b addr (pos n) tab))
          v.sized v.held)

  pub set_table-granted :
      al.grants (n * width % 2 ^ 64) ≡ true
      → set_table al width from s b addr (pos n)
        ≡ (moved_to >>= λ tab. ok (resized s b addr (pos n) tab))
  set_table-granted g = set_table-resizes ∙ unfold resize_tab realloc cleared_growth in rw g

  pub set_table-refused :
      al.grants (n * width % 2 ^ 64) ≡ false
      → set_table al width from s b addr (pos n) ≡ ok (record b { tab = none }, minus_one)
  set_table-refused g = set_table-resizes ∙ unfold resize_tab realloc cleared_growth resized in rw g

-- The table of bits or registers after a resize that is granted.
module _ (al : Allocator) (memory : IsMemory al) (s : Slave) (b : Block) (xs : List ℕ)
    (v : Holds b xs) (addr : ℤ) (n : ℕ) (some_new : 0 < n) (other_size : n ≢ length xs) where
  -- `setCoilBlock` and `setDiscreteInputBlock` give a whole table another size, above zero and
  -- below 2 ^ 64. If the allocator grants it, the bits that fit are kept and the new ones are zero, the first address is
  -- the one asked for, and the size is returned.
  pub set_bit_table-resizes :
      al.grants n ≡ true
      → n < 2 ^ 64
      → set_bit_table al s b addr (pos n)
        ≡ ok (record { nb = pos n; start = pdu_address s addr; tab = some (resize xs n 0) }, pos n)
  unfolding set_bit_table resized
  set_bit_table-resizes g small =
      ap (λ z. set_table al 1 (to_size z) s b addr (pos n)) v.sized
      ∙ set_table-granted al memory s b xs v addr n some_new other_size 1 (length xs) granted
      ∙ ap (λ m. m >>= λ tab. ok (resized s b addr (pos n) tab)) kept
    where
      granted : al.grants (n * 1 % 2 ^ 64) ≡ true
      granted = ap al.grants (omega arith) ∙ g

      kept :
          moved_to al memory s b xs v addr n some_new other_size 1 (length xs)
          ≡ ok (some (resize xs n 0))
      kept = elim (dec_lt (length xs) n) [
        | yes h ↦
            let whole : take n xs ≡ xs = take-ge n xs (omega arith) in
            rw (lt_pos (length xs) n h, cleared al memory xs n h, whole)
        | no h ↦
            let none_new : n - length xs ≡ 0 = omega arith in
            rw (ge_pos (length xs) n (omega arith)) (
              ap (λ ys. ok (some ys))
                (moved-shrunk al memory xs n (omega arith)
                  ∙ sym (append-nil (take n xs))
                  ∙ ap (λ i. take n xs ++ replicate i 0) (sym none_new)))
      ]

  -- A whole table of registers that holds some and is to grow is cleared past the end of its memory,
  -- wherever the allocator grants the growth: the index of the clearing counts bytes, and that of
  -- the table registers.
  pub set_register_table-overflows :
      al.grants (n * 2 % 2 ^ 64) ≡ true
      → 0 < length xs
      → length xs < n
      → set_register_table al s b addr (pos n) ≡ fault
  unfolding set_register_table
  set_register_table-overflows g p h =
      ap (λ z. set_table al 2 (to_size z * 2) s b addr (pos n)) v.sized
      ∙ set_table-granted al memory s b xs v addr n some_new other_size 2 (length xs * 2) g
      ∙ rw (lt_pos (length xs) n h, cleared_past_end al memory xs n p h)

  -- A whole table of bits that the allocator refuses to resize, to such a size, is lost: its pointer is null and its size is still
  -- the old one, so that reading any of its elements is undefined while the device is not open.
  pub set_table-refused_loses :
      al.grants n ≡ false
      → n < 2 ^ 64
      → (W : Type 0) (set_einval : W → W) (w : W) (remote : W → ℤ → Outcome (W × Reply)) (k m : ℕ)
      → k < length xs
      → (b' : Block) × (set_bit_table al s b addr (pos n) ≡ ok (b', minus_one))
        × (read_block set_einval b' false remote w (b.start +ℤ pos k) (pos m) ≡ fault)
  unfolding set_bit_table
  set_table-refused_loses g small W set_einval w remote k m h = (
    record b { tab = none },
    set_table-refused al memory s b xs v addr n some_new other_size 1 (to_size b.nb)
        (ap al.grants (omega arith) ∙ g),
    unfold read_block read_local copy_out in rw inside,
  )
    where
      inside : in_block (record b { tab = none }) (b.start +ℤ pos k) ≡ true
      inside = unfold in_block in in_block-at b xs v k h

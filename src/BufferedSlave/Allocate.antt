-- ===== src/BufferedSlave/Allocate.antt =====
-- `setCoilBlock` and its kin of src/bufferedslave.cpp: the size and the place of a table.
pub mod Laws
pub mod Whole
use libmodbuspp.Base.{
  ℕ, ◌+◌, ◌-◌, ◌*◌, ◌%◌, ◌^◌, Bool, true, false, not, Option, none, some, List, length, take,
  replicate, splice, ltb, leb, if◌then◌else◌, ℤ, pos, ltb_ℤ, eqb_ℤ, to_size, Outcome, ok, fault,
  ◌>>=◌, ◌++◌,
}
use libmodbuspp.Slave.{Slave, minus_one, pdu_address}
use libmodbuspp.BufferedSlave.Block.{Block}

-- The allocator of the C library: whether it grants so many bytes, and what it leaves in memory
-- that nothing has written, for so many elements.
pub record Allocator : Type 0 where
  pub grants : ℕ → Bool
  pub junk : ℕ → List ℕ

-- `memset (&tab[from], 0, …)` over `count` elements.
unfoldable pub clear_from : List ℕ → ℕ → ℕ → Outcome (List ℕ)
clear_from xs from count =
    if leb (from + count) (length xs) then ok (splice xs from (replicate count 0)) else fault

-- After `realloc`: the growth is cleared from the element `from` on, as the code computes it.
unfoldable pub cleared_growth : ℕ → ℤ → ℤ → Option (List ℕ) → Outcome (Option (List ℕ))
cleared_growth from nb nmemb none = ok none
cleared_growth from nb nmemb (some ys) =
    if ltb_ℤ nb nmemb
    then (clear_from ys from (to_size nmemb - to_size nb) >>= λ zs. ok (some zs))
    else ok (some ys)

-- The returned `int` and the table. Where the pointer is null after the call of the allocator, the
-- table keeps its old size.
unfoldable pub resized : Slave → Block → ℤ → ℤ → Option (List ℕ) → Block × ℤ
resized s b addr nmemb none = (record b { tab = none }, minus_one)
resized s b addr nmemb (some ys) =
    (record { nb = nmemb; start = pdu_address s addr; tab = some ys }, nmemb)

module _ (al : Allocator) where
  -- `calloc`: null, or zeros.
  unfoldable pub calloc : ℕ → ℕ → Option (List ℕ)
  calloc count bytes = if al.grants (count * bytes) then some (replicate count 0) else none

  -- `realloc` of a table of `width`-byte elements: null, or the elements that fit, and junk.
  unfoldable pub realloc : List ℕ → ℕ → ℕ → Option (List ℕ)
  realloc xs count width =
      if al.grants (count * width % 2 ^ 64)
      then some (take count (xs ++ al.junk (count - length xs)))
      else none

  unfoldable pub resize_tab : ℕ → ℕ → ℤ → Option (List ℕ) → ℤ → Outcome (Option (List ℕ))
  resize_tab width from nb none nmemb = ok (calloc (to_size nmemb) width)
  resize_tab width from nb (some xs) nmemb =
      cleared_growth from nb nmemb (realloc xs (to_size nmemb) width)

  unfoldable pub set_table : ℕ → ℕ → Slave → Block → ℤ → ℤ → Outcome (Block × ℤ)
  set_table width from s b addr nmemb =
      let placed : Option (List ℕ) → Outcome (Block × ℤ) =
        λ tab. ok (record { nb = nmemb; start = pdu_address s addr; tab = tab }, nmemb) in
      if eqb_ℤ nmemb (pos 0)
      then placed none
      else (if eqb_ℤ b.nb nmemb
          then placed b.tab
          else (resize_tab width from b.nb b.tab nmemb >>= λ tab. ok (resized s b addr nmemb tab)))

  -- `memset (&map->tab_bits[map->nb_bits], …)`
  unfoldable pub set_bit_table : Slave → Block → ℤ → ℤ → Outcome (Block × ℤ)
  set_bit_table s b addr nmemb = set_table 1 (to_size b.nb) s b addr nmemb

  -- `memset (&map->tab_registers[map->nb_registers * sizeof (uint16_t)], …)`: the index is in
  -- elements of two bytes.
  unfoldable pub set_register_table : Slave → Block → ℤ → ℤ → Outcome (Block × ℤ)
  set_register_table s b addr nmemb = set_table 2 (to_size b.nb * 2) s b addr nmemb

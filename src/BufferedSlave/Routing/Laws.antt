-- ===== src/BufferedSlave/Routing/Laws.antt =====
-- Where the requests that are passed on go.
use libmodbuspp.Base.{
  ℕ, ◌+◌, ◌-◌, ◌≤◌, ◌≡◌, ap, ap₂, ◌∙◌, arith, Bool, true, false, Outcome, List, ℤ, pos, ◌-ℤ◌, ◌+ℤ◌,
  min_ℤ, max_ℤ, Option, min, max,
}
use libmodbuspp.Slave.{Client, Reply}
use libmodbuspp.BufferedSlave.Block.{Block}
use libmodbuspp.BufferedSlave.Tables.{Table, BufferedSlave, table_of}
use libmodbuspp.BufferedSlave.Routing.{routed_address, routed_offset, route_read, route_write_many}

routed_address-pos : (pdu : Bool) (a : ℕ) → 1 ≤ a → routed_address pdu (pos a) ≡ pos 0
unfolding routed_address ◌+ℤ◌
routed_address-pos true a h = ground arith
routed_address-pos false a h = ground arith

-- A block of `last + 1` elements, the first of them at `first`.
abbrev block : Option (List ℕ) → ℕ → ℕ → Block
block tab first last = record { tab = tab; start = pos first; nb = pos (last + 1) }

abbrev offset_in : ℕ → ℕ → ℕ → ℕ
offset_in first last start = min (max start first) (first + last) - first

pub pos+pos : (a b : ℕ) → pos a +ℤ pos b ≡ pos (a + b)
unfolding ◌+ℤ◌
pos+pos a b = ground arith

pos-pos : (a b : ℕ) → b ≤ a → pos a -ℤ pos b ≡ pos (a - b)
unfolding ◌-ℤ◌
pos-pos a b h = ground arith

max_ℤ-pos : (a b : ℕ) → max_ℤ (pos a) (pos b) ≡ pos (max a b)
max_ℤ-pos a b = ground arith

min_ℤ-pos : (a b : ℕ) → min_ℤ (pos a) (pos b) ≡ pos (min a b)
min_ℤ-pos a b = ground arith

routed_offset-block :
    (tab : Option (List ℕ)) (first last start : ℕ)
    → routed_offset (block tab first last) (pos start) ≡ pos (offset_in first last start)
routed_offset-block tab first last start =
    ap₂ (λ a b. min_ℤ a b -ℤ pos first) (max_ℤ-pos start first)
      (ap (λ x. x -ℤ pos 1) (pos+pos first (last + 1))
        ∙ pos-pos (first + (last + 1)) 1 (omega arith))
    ∙ ap (λ x. x -ℤ pos first) (min_ℤ-pos (max start first) (first + (last + 1) - 1))
    ∙ pos-pos (min (max start first) (first + (last + 1) - 1)) first (omega arith)
    ∙ ap pos (omega arith)

routed_address-block :
    (pdu : Bool) (tab : Option (List ℕ)) (first last start : ℕ)
    → 1 ≤ first
    → routed_address pdu (pos first +ℤ routed_offset (block tab first last) (pos start)) ≡ pos 0
routed_address-block pdu tab first last start h =
    ap (λ o. routed_address pdu (pos first +ℤ o)) (routed_offset-block tab first last start)
    ∙ ap (routed_address pdu) (pos+pos first (offset_in first last start))
    ∙ routed_address-pos pdu (first + offset_in first last start) (omega arith)

module _ {W : Type 0} (c : Client W) (s : BufferedSlave) (w : W) (tab : Option (List ℕ))
    (first last : ℕ) (from_one : 1 ≤ first) where
  abbrev asked : Block → ℕ → ℤ
  asked b start = routed_address s.base.pdu_addressing (b.start +ℤ routed_offset b (pos start))

  asked-block : (b : Block) → b ≡ block tab first last → (start : ℕ) → asked b start ≡ pos 0
  asked-block b e start =
      ap (λ b. asked b start) e
      ∙ routed_address-block s.base.pdu_addressing tab first last start from_one

  -- When the table's first element is at 1 or above, `readFromDevice` asks the device for data
  -- address 0, wherever the request starts: it does the same as with every access sent to 0.
  pub route_read-ignores_start :
      (t : Table) (remote : W → ℤ → ℤ → Outcome (W × Reply)) (start nb : ℕ)
      → table_of t s.map ≡ block tab first last
      → route_read c s w t remote start nb
        ≡ route_read c s w t (λ w addr n. remote w (pos 0) n) start nb
  unfolding route_read
  route_read-ignores_start t remote start nb e = rw (asked-block (table_of t s.map) e start)

  -- A write of many elements by `writeToDevice` from such a table likewise goes to data address 0.
  pub route_write_many-ignores_start :
      (b : Block) (remote : W → ℤ → List ℕ → ℤ → Outcome (W × ℤ)) (start nb : ℕ)
      → b ≡ block tab first last
      → route_write_many c s w b remote start nb
        ≡ route_write_many c s w b (λ w addr xs n. remote w (pos 0) xs n) start nb
  unfolding route_write_many
  route_write_many-ignores_start b remote start nb e = rw (asked-block b e start)

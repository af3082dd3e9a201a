-- ===== src/BufferedSlave/Allocate/Whole.antt =====
-- A table that `setBlock` has given a size is whole.
use libmodbuspp.Base.{
  ℕ, ◌+◌, ◌-◌, ◌*◌, ◌%◌, ◌^◌, ◌≤◌, ◌≡◌, refl, sym, ap, ◌∙◌, arith, Bool, true, false, inl, inr,
  Option, none, some, List, ◌++◌, length, take, replicate, length-splice, length-take,
  length-append, length-replicate, leb, if◌then◌else◌, ℤ, pos, leb_ℤ, ltb_ℤ, eqb_ℤ, to_size,
  Ensures, Ensures-ok, Ensures-fault, Ensures-test, Ensures-bind, Ensures-if,
}
use libmodbuspp.Slave.{Slave, pdu_address}
use libmodbuspp.BufferedSlave.Block.{Block}
use libmodbuspp.BufferedSlave.Block.Whole.{IsWhole}
use libmodbuspp.BufferedSlave.Allocate.{
  Allocator, clear_from, realloc, calloc, resize_tab, resized, cleared_growth, set_table,
}
use libmodbuspp.BufferedSlave.Allocate.Laws.{IsMemory}
use Prim.{Unit, tt}

-- Where there is memory, it has room for `n` elements.
abbrev pub HasRoom : ℕ → Option (List ℕ) → Type 0
HasRoom n none = Unit {0}
HasRoom n (some ys) = length ys ≡ n

clear_from-length :
    (ys : List ℕ) (from count : ℕ)
    → Ensures (λ zs. length zs ≡ length ys) (clear_from ys from count)
unfolding clear_from
clear_from-length ys from count =
    Ensures-test (leb (from + count) (length ys))
      (λ h.
        Ensures-ok
          (length-splice ys from (replicate count 0) (room (leb-le (from + count) (length ys) h))))
      λ h. Ensures-fault
  where
    leb-le : (a b : ℕ) → leb a b ≡ true → a ≤ b
    leb-le a b h = ground arith

    room : from + count ≤ length ys → from + length {A = ℕ} (replicate count 0) ≤ length ys
    room l = omega (arith, l, length-replicate {A = ℕ} count 0)

cleared_growth-HasRoom :
    (n from : ℕ) (nb : ℤ) (tab : Option (List ℕ))
    → HasRoom n tab
    → Ensures (HasRoom n) (cleared_growth from nb (pos n) tab)
unfolding cleared_growth
cleared_growth-HasRoom n from nb none h = Ensures-ok tt
cleared_growth-HasRoom n from nb (some ys) h =
    Ensures-if (ltb_ℤ nb (pos n))
      (Ensures-bind (clear_from ys from (n - to_size nb))
        (clear_from-length ys from (n - to_size nb)) λ zs e. Ensures-ok (e ∙ h))
      (Ensures-ok h)

module _ (al : Allocator) (memory : IsMemory al) (n : ℕ) where
  realloc-HasRoom : (xs : List ℕ) (width : ℕ) → HasRoom n (realloc al xs n width)
  unfolding realloc
  realloc-HasRoom xs width = room (al.grants (n * width % 2 ^ 64))
    where
      size : length (take n (xs ++ al.junk (n - length xs))) ≡ n
      size = omega (
        arith,
        length-take n (xs ++ al.junk (n - length xs)),
        length-append xs (al.junk (n - length xs)),
        memory (n - length xs),
      )

      room :
          (granted : Bool)
          → HasRoom n (if granted then some (take n (xs ++ al.junk (n - length xs))) else none)
      room true = size
      room false = tt

  calloc-HasRoom : (width : ℕ) → HasRoom n (calloc al n width)
  unfolding calloc
  calloc-HasRoom width = room (al.grants (n * width))
    where
      room : (granted : Bool) → HasRoom n (if granted then some (replicate n 0) else none)
      room true = length-replicate {A = ℕ} n 0
      room false = tt

  resize_tab-HasRoom :
      (width from : ℕ) (nb : ℤ) (tab : Option (List ℕ))
      → Ensures (HasRoom n) (resize_tab al width from nb tab (pos n))
  unfolding resize_tab
  resize_tab-HasRoom width from nb none = Ensures-ok (calloc-HasRoom width)
  resize_tab-HasRoom width from nb (some xs) =
      cleared_growth-HasRoom n from nb (realloc al xs n width) (realloc-HasRoom xs width)

  -- The call reports no error.
  abbrev Sized : Block × ℤ → Type 0
  Sized r = leb_ℤ (pos 0) r.1 ≡ true → IsWhole r.0

  resized-Sized :
      (s : Slave) (b : Block) (addr : ℤ) (tab : Option (List ℕ))
      → HasRoom n tab
      → Sized (resized s b addr (pos n) tab)
  unfolding resized
  resized-Sized s b addr none h = λ fine. absurd (ground arith)
  resized-Sized s b addr (some ys) h =
      λ fine. inr (ys, record { held = refl; sized = ap pos (sym h) })

  pub set_table-Sized :
      (width from : ℕ) (s : Slave) (b : Block) (addr : ℤ)
      → IsWhole b
      → Ensures Sized (set_table al width from s b addr (pos n))
  unfolding set_table
  set_table-Sized width from s b addr whole =
      Ensures-test (eqb_ℤ (pos n) (pos 0)) (λ none_left. Ensures-ok λ fine. inl (ground arith))
        λ some_left.
          Ensures-test (eqb_ℤ b.nb (pos n)) (λ same. Ensures-ok λ fine. moved (ground arith) whole)
            λ other.
              Ensures-bind (resize_tab al width from b.nb b.tab (pos n))
                (resize_tab-HasRoom width from b.nb b.tab)
                λ tab h. Ensures-ok (resized-Sized s b addr tab h)
    where
      moved :
          b.nb ≡ pos n
          → IsWhole b
          → IsWhole record { nb = pos n; start = pdu_address s addr; tab = b.tab }
      moved e (inl f) = inl (sym e ∙ f)
      moved e (inr (xs, v)) = inr (xs, record { held = v.held; sized = sym e ∙ v.sized })

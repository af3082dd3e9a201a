-- ===== src/BufferedSlave/Block/Whole.antt =====
-- Tables that are whole, and where the addresses of their elements stand.
use libmodbuspp.Base.{
  ℕ, ◌<◌, ◌≡◌, refl, sym, ap, ◌∙◌, arith, true, ◌⊎◌, inl, inr, List, length, ℤ, pos, ◌+ℤ◌, ◌-ℤ◌,
  pos_part, leb_ℤ, ltb_ℤ, Option, none, some, [], ◌∷◌, ◌+◌, leb, to_size, splice, length-splice,
  Ensures, Ensures-ok, Ensures-fault, Ensures-test,
}
use mathlib.Core.Option.{some-injective}
use libmodbuspp.BufferedSlave.Block.{Block, in_block, copy_in}
use libmodbuspp.BufferedSlave.Block.Valid.{Holds, with_elements}

-- A table without elements, which may have no memory, or a table with its memory.
abbrev pub IsWhole : Block → Type 0
IsWhole b = (b.nb ≡ pos 0) ⊎ ((xs : List ℕ) × Holds b xs)

-- `b'` has the place of `b`.
pub record Keeps (b b' : Block) : Type 0 where
  pub whole : IsWhole b'
  pub same_nb : b'.nb ≡ b.nb
  pub same_start : b'.start ≡ b.start

pub with_elements-Keeps :
    (b : Block) (xs ys : List ℕ) → Holds b xs → length ys ≡ length xs → Keeps b (with_elements b ys)
with_elements-Keeps b xs ys v e = record {
  whole = inr (ys, record { held = refl; sized = v.sized ∙ ap pos (sym e) });
  same_nb = refl;
  same_start = refl;
}

-- Where an address of a whole table stands.
pub record Within (b : Block) (addr : ℤ) : Type 0 where
  pub elements : List ℕ
  pub holds : Holds b elements
  pub index : ℕ
  pub inside : index < length elements
  pub at : addr ≡ b.start +ℤ pos index

index_of :
    (start addr : ℤ) → leb_ℤ start addr ≡ true → addr ≡ start +ℤ pos (pos_part (addr -ℤ start))
unfolding ◌+ℤ◌ ◌-ℤ◌
index_of start addr h = ground arith

index_small :
    (start addr nb : ℤ) (n : ℕ)
    → nb ≡ pos n
    → leb_ℤ start addr ≡ true
    → ltb_ℤ addr (start +ℤ nb) ≡ true
    → pos_part (addr -ℤ start) < n
unfolding ◌+ℤ◌ ◌-ℤ◌
index_small start addr nb n e h l = ground arith

pub in_block-Within : (b : Block) (addr : ℤ) → IsWhole b → in_block b addr ≡ true → Within b addr
unfolding in_block
in_block-Within b addr (inl e) h =
    absurd
      (let l = index_small b.start addr b.nb 0 e (ground arith) (ground arith) in omega (arith, l))
in_block-Within b addr (inr (xs, v)) h = record {
  elements = xs;
  holds = v;
  index = pos_part (addr -ℤ b.start);
  inside = index_small b.start addr b.nb (length xs) v.sized (ground arith) (ground arith);
  at = index_of b.start addr (ground arith);
}

-- `b'` is `b` after writes into its memory.
pub record InPlace (b b' : Block) : Type 0 where
  pub same_nb : b'.nb ≡ b.nb
  pub same_start : b'.start ≡ b.start
  pub same_room :
      (xs : List ℕ) → b.tab ≡ some xs → (ys : List ℕ) × (b'.tab ≡ some ys) × (length ys ≡ length xs)

pub InPlace-IsWhole : (b b' : Block) → InPlace b b' → IsWhole b → IsWhole b'
InPlace-IsWhole b b' p (inl e) = inl (p.same_nb ∙ e)
InPlace-IsWhole b b' p (inr (xs, v)) =
    let (ys, held, size) = p.same_room xs v.held in
    inr (ys, record { held = held; sized = p.same_nb ∙ v.sized ∙ ap pos (sym size) })

-- Values that are stored in the memory of a table.
pub copy_in-InPlace :
    (b : Block) (offset : ℤ) (ys : List ℕ)
    → Ensures (λ tab. InPlace b (record b { tab = tab })) (copy_in b.tab offset ys)
unfolding copy_in
copy_in-InPlace b offset ys = stored b.tab refl ys
  where
    stored :
        (tab : Option (List ℕ))
        → b.tab ≡ tab
        → (ys : List ℕ)
        → Ensures (λ tab. InPlace b (record b { tab = tab })) (copy_in tab offset ys)
    stored tab e [] =
        Ensures-ok
          record { same_nb = refl; same_start = refl; same_room = λ xs f. (xs, sym e ∙ f, refl) }
    stored none e (y ∷ ys) = Ensures-fault
    stored (some zs) e (y ∷ ys) =
        Ensures-test (leb (to_size offset + length (y ∷ ys)) (length zs))
          (λ h. Ensures-ok record {
            same_nb = refl;
            same_start = refl;
            same_room = λ xs f. (
              splice zs (to_size offset) (y ∷ ys),
              refl,
              length-splice zs (to_size offset) (y ∷ ys) (ground arith)
                  ∙ ap length (some-injective _ _ (sym e ∙ f)),
            );
          })
          (λ _. Ensures-fault)

-- ===== src/Message/Objects.antt =====
-- Copies of messages, and their comparison: src/message.cpp. An object is a message with the address
-- of its array, which `adu` returns; a copy has an array of its own.
use libmodbuspp.Base.{ℕ, ◌≡◌, ◌≢◌, refl, arith, Bool, true, false, not, ◌==◌}
use libmodbuspp.Message.{Message}

pub record Object : Type 0 where
  pub at : ℕ
  pub message : Message

-- `Message (const Message &)`, whose array is put at a new address.
unfoldable pub copy : ℕ → Object → Object
copy place other = record { at = place; message = other.message }

-- `swap` exchanges the pointers to the private parts.
unfoldable pub swap : Object → Object → Object × Object
swap a b = (b, a)

-- `operator= (const Message &)`: a copy is made, and swapped with the message.
unfoldable pub assign : ℕ → Object → Object → Object
assign place this other = (swap (copy place other) this).1

-- `Message (Message &&)` and `operator= (Message &&)` take the private part over.
unfoldable pub move : Object → Object
move other = other

-- `operator==` compares what `adu` returns on both sides: pointers.
unfoldable pub equal : Object → Object → Bool
equal this other = other.at == this.at

unfoldable pub different : Object → Object → Bool
different this other = not (equal this other)

-- A message never equals what a copy of it or an assignment of it gives, although the two are the
-- same in all that they hold, where the copy's array has an address of its own.
pub copy-equal :
    (this other : Object) (place : ℕ)
    → place ≢ other.at
    → (equal (copy place other) other ≡ false)
      × (different (assign place this other) other ≡ true)
      × ((copy place other).message ≡ other.message)
      × ((assign place this other).message ≡ other.message)
unfolding copy swap assign equal different
copy-equal this other place apart = (ground arith, ground arith, refl, refl)

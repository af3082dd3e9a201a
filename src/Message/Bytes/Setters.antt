-- ===== src/Message/Bytes/Setters.antt =====
-- What the constructors and setters of src/message.cpp leave: bytes, and where `aduSize` ends.
use libmodbuspp.Base.{
  ℕ, ◌+◌, ◌-◌, ◌/◌, ◌%◌, ◌^◌, ◌≤◌, ◌<◌, ◌≡◌, refl, arith, Bool, true, false, ◌⊎◌, inl, inr, List,
  IsBytes, length, length-set, length-splice, All-set, All-take, All-drop, All-append,
  All-replicate, take, drop, splice, resize, replicate, ◌++◌, ltb, leb, ℤ, pos, negsuc, ok, thrown,
  domain_error, Ensures, Ensures-ok, Ensures-fault, Ensures-thrown, Ensures-test, Ensures-bind,
  Ensures-then, Ensures-map,
}
use libmodbuspp.Message.{
  Net, rtu, tcp, no_net, Message, index, write_at, set_byte, set_word, low_byte, set_slave_id,
  set_size, set_transaction_identifier, clear, set_pdu, set_pdu_from, size,
}
use libmodbuspp.Message.Create.{Limits, fresh, create, create_on, create_from, create_function}

-- The elements of `adu` are bytes, and `aduSize` does not pass its end if it was not set by hand.
pub record IsMessage (by_hand : Bool) (m : Message) : Type 0 where
  pub bytes : IsBytes m.adu
  pub fits : (by_hand ≡ true) ⊎ (m.adu_size ≤ length m.adu)

-- One byte is written: the array keeps its length.
pub record Kept (m t : Message) : Type 0 where
  pub bytes : IsBytes t.adu
  pub same_length : length t.adu ≡ length m.adu
  pub same_size : t.adu_size ≡ m.adu_size

write_at-Kept :
    (m : Message) (i x : ℕ)
    → IsBytes m.adu
    → x < 256
    → Ensures (λ t. Kept m t × (i < length m.adu)) (write_at m i x)
write_at-Kept m i x h b =
    Ensures-test (ltb i (length m.adu))
      (λ e. Ensures-ok (
        record {
          bytes = All-set (λ x. x < 256) m.adu i x h b;
          same_length = length-set m.adu i x;
          same_size = refl;
        },
        ground arith,
      ))
      λ e. Ensures-fault

pub set_byte-IsMessage :
    (h : Bool) (m : Message) (i : ℤ) (x : ℕ)
    → IsMessage h m
    → x < 256
    → Ensures (IsMessage h) (set_byte m i x)
unfolding set_byte
set_byte-IsMessage h m i x v b = Ensures-then (index m i) λ k.
    Ensures-bind (write_at m k x) (write_at-Kept m k x v.bytes b) λ t (kept, inside).
      Ensures-ok record {
        bytes = kept.bytes;
        fits = elim v.fits [
          | inl hand ↦ inl hand
          | inr l ↦ inr (omega (arith, l, inside, kept.same_length, kept.same_size))
        ];
      }

pub set_word-IsMessage :
    (h : Bool) (m : Message) (i : ℤ) (x : ℕ)
    → IsMessage h m
    → Ensures (IsMessage h) (set_word m i x)
unfolding set_word
set_word-IsMessage h m i x v = Ensures-then (index m i) λ k.
    Ensures-bind (write_at m k (x / 2 ^ 8 % 2 ^ 8))
      (write_at-Kept m k (x / 2 ^ 8 % 2 ^ 8) v.bytes (omega arith))
      λ t (first, inside).
        Ensures-bind (write_at t (k + 1) (x % 2 ^ 8))
          (write_at-Kept t (k + 1) (x % 2 ^ 8) first.bytes (omega arith))
          λ u (second, inside'). Ensures-ok record {
            bytes = second.bytes;
            fits = elim v.fits [
              | inl hand ↦ inl hand
              | inr l ↦ inr (
                  omega (
                    arith, l, inside', first.same_length, first.same_size, second.same_length,
                    second.same_size,
                  ))
            ];
          }

pub set_transaction_identifier-IsMessage :
    (h : Bool) (m : Message) (id : ℕ)
    → IsMessage h m
    → Ensures (IsMessage h) (set_transaction_identifier m id)
unfolding set_transaction_identifier
set_transaction_identifier-IsMessage h m id v = on_net m.net
  where
    on_net :
        (n : Net)
        → Ensures
            (IsMessage h)
            (elim n [ tcp ↦ set_word m (negsuc 6) id | _ ↦ thrown domain_error ])
    on_net tcp = set_word-IsMessage h m (negsuc 6) id v
    on_net rtu = Ensures-thrown
    on_net no_net = Ensures-thrown

resize-IsBytes : (xs : List ℕ) (n : ℕ) → IsBytes xs → IsBytes (resize xs n 0)
resize-IsBytes xs n h =
    let small : ℕ → Type 0 = λ x. x < 256 in
    All-append small (take n xs) (replicate (n - length xs) 0) (All-take small n xs h)
      (All-replicate small (n - length xs) 0 (omega arith))

splice-IsBytes : (xs ys : List ℕ) (k : ℕ) → IsBytes xs → IsBytes ys → IsBytes (splice xs k ys)
splice-IsBytes xs ys k h b =
    let small : ℕ → Type 0 = λ x. x < 256 in
    All-append small (take k xs) (ys ++ drop (k + length ys) xs) (All-take small k xs h)
      (All-append small ys (drop (k + length ys) xs) b (All-drop small (k + length ys) xs h))

pub low_byte-small : (id : ℤ) → low_byte id < 256
low_byte-small (pos n) = omega arith
low_byte-small (negsuc n) = omega arith

pub set_pdu-IsMessage :
    (h : Bool) (m : Message) (bytes : List ℕ)
    → IsMessage h m
    → IsBytes bytes
    → Ensures (IsMessage false) (set_pdu m bytes)
unfolding set_pdu set_size
set_pdu-IsMessage h m bytes v b =
    Ensures-test (leb (m.pdu_begin + length bytes) (length m.adu))
      (λ e.
        let room : m.pdu_begin + length bytes ≤ length m.adu = ground arith in
        Ensures-ok record {
          bytes = splice-IsBytes m.adu bytes m.pdu_begin v.bytes b;
          fits = inr (omega (arith, room, length-splice m.adu m.pdu_begin bytes room));
        })
      λ e. Ensures-fault

pub set_pdu_from-IsMessage :
    (h k : Bool) (m src : Message)
    → IsMessage h m
    → IsMessage k src
    → Ensures (IsMessage false) (set_pdu_from m src)
unfolding set_pdu_from
set_pdu_from-IsMessage h k m src v u =
    let small : ℕ → Type 0 = λ x. x < 256 in
    Ensures-test (leb (src.pdu_begin + size src) (length src.adu))
      (λ e. set_pdu-IsMessage h m (take (size src) (drop src.pdu_begin src.adu)) v (
        All-take small (size src) (drop src.pdu_begin src.adu)
          (All-drop small src.pdu_begin src.adu u.bytes)))
      λ e. Ensures-fault

pub clear-IsMessage :
    (h : Bool) (tcp_slave : ℕ) (m : Message)
    → IsMessage h m
    → Ensures (IsMessage false) (clear tcp_slave m)
unfolding clear set_slave_id
clear-IsMessage h tcp_slave m v =
    cleared m.net
      record { bytes = resize-IsBytes m.adu m.max_adu_length v.bytes; fits = inr (omega arith) }
  where
    cleared :
        {m : Message} (n : Net)
        → IsMessage false m
        → Ensures
            (IsMessage false)
            (elim n [ tcp ↦ set_byte m (negsuc 0) (low_byte (pos tcp_slave)) | _ ↦ ok m ])
    cleared {m} tcp v =
        set_byte-IsMessage false m (negsuc 0) (low_byte (pos tcp_slave)) v
          (low_byte-small (pos tcp_slave))
    cleared rtu v = Ensures-ok v
    cleared no_net v = Ensures-ok v

module _ (lim : Limits) (slave_fits : lim.tcp_slave < 256) where
  fresh-IsMessage : (n : Net) → IsMessage false (fresh lim n)
  fresh-IsMessage n = record {
    bytes = All-replicate (λ x. x < 256) (lim.max_adu_length n) 0 (omega arith);
    fits = inr (omega arith);
  }

  write_at-IsMessage :
      (m : Message) (i x : ℕ)
      → IsMessage false m
      → x < 256
      → Ensures (IsMessage false) (write_at m i x)
  write_at-IsMessage m i x v b = Ensures-map (write_at-Kept m i x v.bytes b) λ t (kept, inside).
      record {
        bytes = kept.bytes;
        fits = elim v.fits [
          | inl hand ↦ inl hand
          | inr l ↦ inr (omega (arith, l, kept.same_length, kept.same_size))
        ];
      }

  pub create-IsMessage : (n : Net) → Ensures (IsMessage false) (create lim n)
  unfolding create
  create-IsMessage tcp =
      write_at-IsMessage (fresh lim tcp) 6 lim.tcp_slave (fresh-IsMessage tcp) slave_fits
  create-IsMessage rtu = Ensures-ok (fresh-IsMessage rtu)
  create-IsMessage no_net = Ensures-thrown

  pub create_on-IsMessage : (n : Net) → Ensures (IsMessage false) (create_on lim n)
  unfolding create_on
  create_on-IsMessage tcp =
      write_at-IsMessage (fresh lim tcp) 6 lim.tcp_slave (fresh-IsMessage tcp) slave_fits
  create_on-IsMessage rtu = Ensures-ok (fresh-IsMessage rtu)
  create_on-IsMessage no_net = Ensures-ok (fresh-IsMessage no_net)

  pub create_from-IsMessage :
      (n : Net) (bytes : List ℕ)
      → IsBytes bytes
      → Ensures (IsMessage false) (create_from lim n bytes)
  unfolding create_from
  create_from-IsMessage n bytes b =
      Ensures-then (create lim n) λ m. Ensures-ok record { bytes = b; fits = inr (omega arith) }

  pub create_function-IsMessage :
      (n : Net) (func : ℕ) → func < 256 → Ensures (IsMessage false) (create_function lim n func)
  unfolding create_function
  create_function-IsMessage n func b =
      Ensures-bind (create lim n) (create-IsMessage n)
        λ m v. write_at-IsMessage m m.pdu_begin func v b

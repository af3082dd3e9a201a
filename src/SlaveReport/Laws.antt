-- ===== src/SlaveReport/Laws.antt =====
-- What a report says of the bytes that a slave sent.
use libmodbuspp.Base.{
  ℕ, ◌+◌, ◌-◌, ◌%◌, ◌^◌, ◌≤◌, ◌<◌, ◌≡◌, refl, ap, ap₂, sym, pos, if◌then◌else◌, some, ◌∙◌, arith,
  true, false, List, [], ◌∷◌, ◌++◌, take, drop, length, get_elem?, ltb, leb, ◌==◌, lt→ltb, le→leb,
  lt→leb_false, length-append, drop-append, take-append, take-length, get_elem?-append_right,
  append_assoc, IsBytes, ok, fault,
}
use libmodbuspp.Swap.{hton, ntoh, swap_bytes}
use libmodbuspp.Data.{Endian, swap}
use libmodbuspp.Data.Words.{IsEven}
use libmodbuspp.Data.RoundTrip.{swap_undone, swap_bytes_twice, swap_bytes-IsValue}
use libmodbuspp.Data.Width.{length-swap, length-swap_bytes}
use libmodbuspp.SlaveReport.{SlaveReport, of_reply, status, id, additional}

-- A reply with an identifier of even width in the order `e`, a status and additional data.
abbrev pub reply_of : Endian → List ℕ → ℕ → List ℕ → List ℕ
reply_of e v st extra = swap e (hton v) ++ st ∷ extra

length-sent : (e : Endian) (v : List ℕ) → IsEven v → length (swap e (hton v)) ≡ length v
unfolding hton
length-sent e v h =
    length-swap e (swap_bytes v) (ap (λ n. n % 2) (length-swap_bytes v) ∙ h) ∙ length-swap_bytes v

-- A report that is shorter than an identifier and a status has no additional data, and the bytes
-- that `data` reads lie outside the array.
pub additional-short :
    (width : ℕ) (r : SlaveReport)
    → r.size ≤ width
    → width + 1 < 2 ^ 16
    → length r.bytes < 2 ^ 16
    → additional width r ≡ fault
unfolding additional
additional-short width r h k l =
    let len = (r.size + 2 ^ 16 - (width + 1)) % 2 ^ 16 in
    let over : ltb 0 len ≡ true = lt→ltb 0 len (omega arith) in
    let out : leb (width + 1 + len) (length r.bytes) ≡ false =
      lt→leb_false (width + 1 + len) (length r.bytes) (omega arith) in
    rw (over, out) refl

whole :
    (xs rest : List ℕ)
    → (if ltb 0 (length xs) then ok (take (length xs) (xs ++ rest)) else ok []) ≡ ok xs
whole [] rest = refl
whole (x ∷ xs) rest =
    let some_byte : ltb 0 (length (x ∷ xs)) ≡ true = lt→ltb 0 (length (x ∷ xs)) (omega arith) in
    rw (some_byte, take-append (x ∷ xs) rest) refl

module _ (e : Endian) (v : List ℕ) (st : ℕ) (extra stale : List ℕ) where
  abbrev reply : List ℕ
  reply = reply_of e v st extra

  abbrev report : SlaveReport
  report = record {
    endian = e;
    size = length reply;
    bytes = reply ++ drop (0 + length reply) stale;
  }

  -- What stands in the array, the identifier first.
  parts : report.bytes ≡ swap e (hton v) ++ st ∷ (extra ++ drop (0 + length reply) stale)
  parts = append_assoc (swap e (hton v)) (st ∷ extra) (drop (0 + length reply) stale)

  module _ (h : IsBytes v) (k : IsEven v) (fits : length reply ≤ length stale)
      (small : length stale < 2 ^ 16) where
    length-reply : length reply ≡ length v + 1 + length extra
    length-reply = omega (arith, length-append (swap e (hton v)) (st ∷ extra), length-sent e v k)

    length-bytes : length report.bytes ≡ length reply + length (drop (0 + length reply) stale)
    length-bytes = length-append reply (drop (0 + length reply) stale)

    made : of_reply e stale (pos (length reply)) reply ≡ ok report
    unfolding of_reply
    made =
        let n = length reply in
        let a : leb n n ≡ true = le→leb n n (omega arith) in
        let b : leb n (length stale) ≡ true = le→leb n (length stale) fits in
        let c : n % 2 ^ 16 ≡ n = omega arith in rw (a, b, c, take-length reply) refl

    sent_first : take (length v) report.bytes ≡ swap e (hton v)
    sent_first =
        ap₂ take (sym (length-sent e v k)) parts
        ∙ take-append (swap e (hton v)) (st ∷ (extra ++ drop (0 + length reply) stale))

    id-report : id (length v) report ≡ ok v
    unfolding id hton ntoh
    id-report =
        let a : leb (length v) (length reply) ≡ true = le→leb _ _ (omega (arith, length-reply)) in
        let b : leb (length v) (length report.bytes) ≡ true =
          le→leb _ _ (omega (arith, length-reply, length-bytes)) in
        rw (a, b)
          (ap ok (
            ap (λ x. swap_bytes (swap e x)) sent_first
            ∙ ap swap_bytes (swap_undone e (swap_bytes v) (swap_bytes-IsValue v (h, k)))
            ∙ swap_bytes_twice v))

    status-report : status (length v) report ≡ ok (st == 0xFF)
    unfolding status
    status-report =
        let rest = st ∷ (extra ++ drop (0 + length reply) stale) in
        let at : length v ≡ length (swap e (hton v)) + 0 = omega (arith, length-sent e v k) in
        let a : ltb (length v) (length reply) ≡ true = lt→ltb _ _ (omega (arith, length-reply)) in
        let b : get_elem? report.bytes (length v) ≡ some st =
          ap₂ get_elem? parts at ∙ get_elem?-append_right (swap e (hton v)) rest 0 in
        rw (a, b) refl

    additional-report : additional (length v) report ≡ ok extra
    unfolding additional
    additional-report =
        let rest = drop (0 + length reply) stale in
        let front = swap e (hton v) ++ st ∷ [] in
        let c : (length reply + 2 ^ 16 - (length v + 1)) % 2 ^ 16 ≡ length extra =
          omega (arith, length-reply) in
        let a : leb (length v + 1 + length extra) (length report.bytes) ≡ true =
          le→leb _ _ (omega (arith, length-reply, length-bytes)) in
        let at : length v + 1 ≡ length front =
          omega (arith, length-append (swap e (hton v)) (st ∷ []), length-sent e v k) in
        let behind : drop (length v + 1) report.bytes ≡ extra ++ rest =
          ap₂ drop at (parts ∙ sym (append_assoc (swap e (hton v)) (st ∷ []) (extra ++ rest)))
          ∙ drop-append front (extra ++ rest) in
        rw (c, a, behind) (whole extra rest)

    -- A report that is made from a reply says what the slave sent, in each of the four orders of bytes
    -- and words: an identifier of an even number of bytes, whether the status is 0xFF, and the
    -- additional data.
    pub of_reply-carries :
        (r : SlaveReport) × (of_reply e stale (pos (length reply)) reply ≡ ok r)
        × (id (length v) r ≡ ok v)
        × (status (length v) r ≡ ok (st == 0xFF))
        × (additional (length v) r ≡ ok extra)
    of_reply-carries = (report, made, id-report, status-report, additional-report)

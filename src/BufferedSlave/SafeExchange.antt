-- ===== src/BufferedSlave/SafeExchange.antt =====
-- A combined write and read of a slave whose tables are whole returns, and leaves them whole.
use libmodbuspp.Base.{
  ℕ, ◌+◌, ◌-◌, ◌≤◌, ◌<◌, min, ◌≡◌, refl, sym, ap, ◌∙◌, arith, true, ◌&&◌, inl, inr, some, List, [],
  length, ℤ, pos, ◌-ℤ◌, leb_ℤ, if◌then◌else◌, ok, ◌>>=◌, Returns, Returns-ok, Returns-bind,
  Returns-test, Returns-map,
}
use libmodbuspp.Slave
use libmodbuspp.Slave.{Client, Reply, is_open, pdu_address}
use libmodbuspp.BufferedSlave.Block.{Block, in_block, clipped, copy_out}
use libmodbuspp.BufferedSlave.Block.Valid.{Holds, with_elements, offset-at, clipped-at}
use libmodbuspp.BufferedSlave.Block.Whole.{Within, in_block-Within}
use libmodbuspp.BufferedSlave.Block.Safe.{copied, stored-held, elements-Holds}
use libmodbuspp.BufferedSlave.Block.SafeWrite.{from-held}
use libmodbuspp.BufferedSlave.Tables.{BufferedSlave, holding_register, put_table}
use libmodbuspp.BufferedSlave.Device.{exchange, write_read_registers}
use libmodbuspp.BufferedSlave.Safe.{
  IsClient, FitsAll, AllWhole, ReadSafe, put_table-AllWhole, access-Returns, is_open-is_valid,
}

pos-injective : {a b : ℕ} → pos a ≡ pos b → a ≡ b
pos-injective h = cc

module _ {W : Type 0} (c : Client W) (client : IsClient c) (s : BufferedSlave) (all : AllWhole s)
    (w : W) (src : List ℕ) where
  abbrev b : Block
  b = s.map.registers

  remote-FitsAll :
      (write_addr read_addr k : ℤ) (xs : List ℕ) (m : ℕ)
      → is_open s.base ≡ true
      → Returns
          (FitsAll m)
          (Slave.write_read_registers c s.base w write_addr xs k read_addr (pos m))
  unfolding Slave.write_read_registers
  remote-FitsAll write_addr read_addr k xs m opened =
      access-Returns c s.base w _ _ (is_open-is_valid s.base opened) (λ _. (omega arith, inl refl))
        λ w. client.exchanged_fit w _ _ k xs m

  module _ (xs : List ℕ) (v : Holds b xs) (i j m n : ℕ) (hi : i + m ≤ length xs)
      (hj : j + n ≤ length xs) where
    abbrev put : List ℕ → BufferedSlave
    put zs = put_table holding_register s (with_elements b zs)

    put-AllWhole : (zs : List ℕ) → length zs ≡ length xs → AllWhole (put zs)
    put-AllWhole zs e =
        put_table-AllWhole holding_register s (with_elements b zs) all
          (inr (zs, elements-Holds b xs v i m hi zs e))

    abbrev held : (zs : List ℕ) → length zs ≡ length xs → Holds (with_elements b zs) zs
    held zs e = elements-Holds b xs v i m hi zs e

    -- What goes to `dest` after the exchange with the device.
    answered-ReadSafe :
        (zs : List ℕ) (w' : W) (r : Reply)
        → length zs ≡ length xs
        → FitsAll n (w', r)
        → Returns (ReadSafe n) (
            if leb_ℤ (pos 0) r.rc
            then (copy_out (some zs) (pos j) r.rc >>= λ out. ok (put zs, w', r.rc, out))
            else ok (put zs, w', r.rc, []))
    answered-ReadSafe zs w' r e (stored, inl failed) =
        Returns-test (leb_ℤ (pos 0) r.rc) (λ fine. absurd (ground arith))
          λ not_fine.
            Returns-ok
              record { whole = put-AllWhole zs e; fits = omega arith; told = inr (failed, refl) }
    answered-ReadSafe zs w' r e (stored, inr (k, is_k, few)) = rw is_k (
        Returns-test (leb_ℤ (pos 0) (pos k))
          (λ fine.
            Returns-bind (copied b xs v j k (omega arith) (with_elements b zs) zs (held zs e) e)
              λ out size. Returns-ok record {
                whole = put-AllWhole zs e;
                fits = omega (arith, size, few);
                told = inl (ap pos (sym size));
              })
          λ not_fine. absurd (ground arith))

    exchange-ReadSafe :
        (write_addr read_addr : ℤ)
        → m ≤ length src
        → Returns
            (ReadSafe n)
            (exchange c s w write_addr src (pos m) read_addr (pos n) (pos i) (pos j))
    unfolding exchange
    exchange-ReadSafe write_addr read_addr l =
        Returns-bind (from-held b xs v i m hi src l) λ tab stored. rw (stored.1) (
          let zs = stored.0 in
          let e = stored.2 in
          let b' = with_elements b zs in
          Returns-bind (copied b xs v i m hi b' zs (held zs e) e) λ ys size.
            Returns-test (is_open s.base)
              (λ o. Returns-bind (remote-FitsAll write_addr read_addr (pos m) ys n o) λ r fits.
                Returns-bind
                  (stored-held b' zs (held zs e) j n (omega (arith, e, hj)) r.1.stored fits.0)
                  λ tab' kept. rw (kept.1) (answered-ReadSafe kept.0 r.0 r.1 (kept.2 ∙ e) fits))
              λ closed. Returns-bind (copied b xs v j n hj b' zs (held zs e) e) λ out fits.
                Returns-ok record {
                  whole = put-AllWhole zs e;
                  fits = omega (arith, fits);
                  told = inl (ap pos (sym fits));
                })

  -- Registers are written and then read in one call, from a source that has as many as are to be
  -- written. On a slave whose tables are whole the call returns, whether or not its device is open.
  -- It touches no memory outside the table and the source, stores no more in `dest` than is asked
  -- for, as many registers as its result says, and leaves all tables whole.
  pub write_read_registers-ReadSafe :
      (write_addr read_addr : ℤ) (m n : ℕ)
      → m ≤ length src
      → Returns (ReadSafe n) (write_read_registers c s w write_addr src (pos m) read_addr (pos n))
  unfolding write_read_registers
  write_read_registers-ReadSafe write_addr read_addr m n l =
      let read_at = pdu_address s.base read_addr in
      let write_at = pdu_address s.base write_addr in
      Returns-test (in_block b read_at && in_block b write_at)
        (λ within.
          found (in_block-Within b read_at (all holding_register) (ground arith))
            (in_block-Within b write_at (all holding_register) (ground arith)))
        λ without. Returns-ok record { whole = all; fits = omega arith; told = inr (refl, refl) }
    where
      found :
          Within b (pdu_address s.base read_addr)
          → Within b (pdu_address s.base write_addr)
          → Returns (ReadSafe n) (
              let offset_read = pdu_address s.base read_addr -ℤ b.start in
              let offset_write = pdu_address s.base write_addr -ℤ b.start in
              exchange c s w write_addr src
                (clipped b offset_write (pos m))
                read_addr
                (clipped b offset_read (pos n))
                offset_write
                offset_read)
      found p q =
          let xs = q.elements in
          let v = q.holds in
          let i = q.index in
          let j = p.index in
          let same : pos (length p.elements) ≡ pos (length xs) = sym (p.holds.sized) ∙ v.sized in
          let hj : j < length xs = omega (arith, p.inside, pos-injective same) in
          let k : ℕ = min m (length xs - i) in
          let o : ℕ = min n (length xs - j) in
          rw
            (
              q.at,
              p.at,
              offset-at b xs v i,
              offset-at b xs v j,
              clipped-at b xs v i m (q.inside),
              clipped-at b xs v j n hj,
            )
            (Returns-map
              (λ r safe. record {
                whole = safe.whole;
                fits = omega (arith, safe.fits);
                told = safe.told;
              })
              (exchange-ReadSafe xs v i j k o (omega (arith, q.inside)) (omega arith) write_addr
                read_addr (omega arith)))

-- ===== src/SlaveReport.antt =====
-- `SlaveReport <T, e>` of include/modbuspp/slavereport.h: what a slave answers to function 17. The
-- width of `T` is `width`.
pub mod Laws
use libmodbuspp.Base.{
  ℕ, ◌+◌, ◌-◌, ◌%◌, ◌^◌, Bool, true, false, ◌&&◌, List, [], take, drop, length, replicate, splice,
  get_elem?, ltb, leb, ◌==◌, if◌then◌else◌, ℤ, pos, leb_ℤ, to_size, Outcome, ok, fault, ◌>>=◌,
  deref,
}
use libmodbuspp.Swap.{ntoh}
use libmodbuspp.Data.{Endian, swap}
use libmodbuspp.Slave.{Reply}

-- `bytes` is `m_data`, the whole array of MODBUS_MAX_PDU_LENGTH bytes.
pub record SlaveReport : Type 0 where
  pub endian : Endian
  pub size : ℕ
  pub bytes : List ℕ

-- The default constructor leaves the array as it finds it.
abbrev pub empty : Endian → List ℕ → SlaveReport
empty e stale = record { endian = e; size = 0; bytes = stale }

-- `SlaveReport (len, reply)`
unfoldable pub of_reply : Endian → List ℕ → ℤ → List ℕ → Outcome SlaveReport
of_reply e stale len reply =
    let n = to_size len in
    if leb n (length reply) && leb n (length stale)
    then ok (record { endian = e; size = n % 2 ^ 16; bytes = splice stale 0 (take n reply) })
    else fault

module _ (width : ℕ) (r : SlaveReport) where
  unfoldable pub status : Outcome Bool
  status =
      let read : Outcome Bool = (deref (get_elem? r.bytes width) >>= λ b. ok (b == 0xFF)) in
      if ltb width r.size then read else ok false

  -- The bytes of the identifier in memory.
  unfoldable pub id : Outcome (List ℕ)
  id =
      let read : Outcome (List ℕ) =
        if leb width (length r.bytes)
        then ok (ntoh (swap r.endian (take width r.bytes)))
        else fault in
      if leb width r.size then read else ok (replicate width 0)

  -- `len` is a `uint16_t`.
  unfoldable pub additional : Outcome (List ℕ)
  additional =
      let len = (r.size + 2 ^ 16 - (width + 1)) % 2 ^ 16 in
      let read : Outcome (List ℕ) =
        if leb (width + 1 + len) (length r.bytes)
        then ok (take len (drop (width + 1) r.bytes))
        else fault in
      if ltb 0 len then read else ok []

-- `Slave::reportSlaveId (SlaveReport &)`, where `reply` is what the call on bytes has returned.
unfoldable pub take_report : SlaveReport → Reply → Outcome (SlaveReport × ℤ)
take_report r reply =
    let stored = record r { bytes = splice r.bytes 0 reply.stored } in
    let sized =
      if leb_ℤ (pos 0) reply.rc
      then record stored { size = to_size reply.rc % 2 ^ 16 }
      else stored in
    if leb (length reply.stored) (length r.bytes) then ok (sized, reply.rc) else fault

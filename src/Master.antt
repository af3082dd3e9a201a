-- ===== src/Master.antt =====
-- The `Master` class of src/master.cpp: a device that asks slaves.
pub mod Laws
use libmodbuspp.Base.{
  ℕ, ◌+◌, ◌-◌, ◌%◌, ◌^◌, Bool, true, false, Option, none, some, List, [], ◌∷◌, length, take, drop,
  splice, leb, if◌then◌else◌, find, put, ℤ, pos, ◌-ℤ◌, eqb_ℤ, ltb_ℤ, to_size, Outcome, ok, thrown,
  fault, ◌>>=◌, deref, get_elem?, invalid_argument, runtime_error, out_of_range,
}
use libmodbuspp.Message.{Net, rtu, tcp, no_net, Message, size, set_adu_size}
use libmodbuspp.Slave
use libmodbuspp.Slave.{Slave, DeviceView, Reply}
use libmodbuspp.Device.{Backend, Device, is_valid, set_recovery_link}
use libmodbuspp.Device.Layers.{Maker, make_backend}
use libmodbuspp.Server.Control.{default_slave}

-- `Master::Private`
pub record Master : Type 0 where
  pub device : Device
  pub slaves : List (ℤ × Slave)

-- What a slave asks of its master.
abbrev pub view : Device → DeviceView
view d = record { valid = is_valid d; opened = d.opened }

unfoldable pub has_slave : Master → ℤ → Bool
has_slave m addr = elim (find m.slaves addr) [ none ↦ false | some slv ↦ true ]

unfoldable pub slave_at : Master → ℤ → Outcome Slave
slave_at m addr = elim (find m.slaves addr) [ none ↦ thrown out_of_range | some slv ↦ ok slv ]

module _ (broadcast tcp_slave : ℕ) (m : Master) (addr : ℤ) where
  unfoldable pub slave_of : Outcome Slave
  slave_of = slave_at m (default_slave broadcast tcp_slave m.device.backend addr)

  unfoldable pub slave_ptr : Option Slave
  slave_ptr = find m.slaves (default_slave broadcast tcp_slave m.device.backend addr)

-- The calls of libmodbus that a master makes.
pub record MasterHost (W : Type 0) : Type 0 where
  pub set_slave : W → ℕ → ℤ → W × ℤ
  pub set_error_recovery : W → ℕ → Bool → W
  pub send_raw_request : W → ℕ → List ℕ → W × ℤ
  pub receive_confirmation : W → ℕ → W × Reply

module _ {W : Type 0} (h : MasterHost W) where
  -- `if (isValid ())`, with what follows on the backend.
  abbrev pub on_backend : {A : Type 0} → Master → (Backend → Outcome A) → Outcome A
  on_backend m use_it = elim m.device.backend [ none ↦ thrown runtime_error | some b ↦ use_it b ]

  unfoldable pub recover_link : Master → W → Bool → Outcome (Master × W × Bool)
  recover_link m w recovery = on_backend m λ b. ok (
    record m { device = set_recovery_link m.device recovery },
    h.set_error_recovery w b.ctx recovery,
    true,
  )

  -- A slave that is there stays as it is.
  abbrev pub kept_or_made : Master → ℤ → Slave
  kept_or_made m addr = elim (find m.slaves addr) [
    | none ↦ Slave.create addr (some (view m.device))
    | some slv ↦ slv
  ]

  unfoldable pub add_slave : Master → W → ℤ → Outcome (Master × W)
  add_slave m w addr = on_backend m λ b.
      let (w', rc) = h.set_slave w b.ctx addr in
      if eqb_ℤ rc (pos 0)
      then ok (record m { slaves = put m.slaves addr (kept_or_made m addr) }, w')
      else thrown invalid_argument

  -- The `switch` of `Master::Private::setBackend`.
  unfoldable pub add_default_slave : ℕ → ℕ → Net → Master → W → Outcome (Master × W)
  add_default_slave broadcast tcp_slave n m w = elim n [
    | tcp ↦ add_slave m w (pos tcp_slave)
    | rtu ↦ add_slave m w (pos broadcast)
    | no_net ↦ ok (m, w)
  ]

  -- `Master::Private::setBackend`
  unfoldable pub set_master_backend :
      Maker W → ℕ → ℕ → Net → List ℕ → List ℕ → Master → W → Outcome (Master × W)
  set_master_backend make broadcast tcp_slave n connection settings m w =
      make_backend make n connection settings w >>= λ r.
      add_default_slave broadcast tcp_slave n
        (record m { device = record m.device { backend = some r.1 } }) r.0

  -- The first byte of `req` is the number of the slave.
  unfoldable pub send_raw_request : Master → W → List ℕ → Outcome (W × ℤ)
  send_raw_request m w req = on_backend m λ b. deref (get_elem? req 0) >>= λ id.
      let (w', rc) = h.set_slave w b.ctx (pos id) in
      if eqb_ℤ rc (pos 0) then ok (h.send_raw_request w' b.ctx req) else ok (w', rc)

  -- `sendRawRequest (req.pdu () - 1, req.size () + 1)`
  unfoldable pub send_request : Master → W → Message → Outcome (W × ℤ)
  send_request m w req =
      let from = req.pdu_begin - 1 in
      if leb 1 req.pdu_begin
      then send_raw_request m w (take (size req + 1) (drop from req.adu))
      else fault

  -- `receiveResponse`: the CRC of a serial line is cut off.
  unfoldable pub receive_response : Master → W → Message → Outcome (W × Message × ℤ)
  receive_response m w resp = on_backend m λ b.
      let (w', r) = h.receive_confirmation w b.ctx in
      let stored = record resp { adu = splice resp.adu 0 r.stored } in
      let n : ℕ = elim b.net [ tcp ↦ to_size r.rc | _ ↦ to_size (r.rc -ℤ pos 2) ] in
      if leb (length r.stored) (length resp.adu)
      then ok (w', (if ltb_ℤ (pos 0) r.rc then set_adu_size stored n else stored), r.rc)
      else fault

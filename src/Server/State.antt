-- ===== src/Server/State.antt =====
-- The state of a server, and its line: `Server::Private` of src/server_p.h, with `open` and `close`
-- of src/server.cpp.
use libmodbuspp.Base.{
  Bool, false, not, Option, none, some, List, if◌then◌else◌, ℤ, eqb_ℤ, Outcome, ok, fault, ◌>>=◌,
}
use libmodbuspp.Message.{Message, Net, rtu, tcp, no_net}
use libmodbuspp.Message.Create.{Limits, create_on}
use libmodbuspp.Slave.{minus_one}
use libmodbuspp.Device.{Line, Backend, Device, private_open, private_close}
use libmodbuspp.BufferedSlave.Tables.{BufferedSlave}

abbrev pub Slaves : Type 0
Slaves = List (ℤ × BufferedSlave)

-- `receiving` and `daemon` tell that the future and the thread are there, and `stop_taken` that
-- the future of the promise `stopDaemon` was fetched.
pub record Server : Type 0 where
  pub device : Device
  pub sock : ℤ
  pub request : Option Message
  pub slaves : Slaves
  pub receiving : Bool
  pub daemon : Bool
  pub stop_taken : Bool

module _ {W : Type 0} (line : Line W) (lim : Limits) where
  -- The `switch` of `Server::Private::open`.
  abbrev pub listening : Server → Backend → W → Outcome (Server × W × Bool)
  listening s b w = elim b.net [
    | tcp ↦
        let (w', sock) = line.listen w b.ctx in
        ok (record s { sock = sock }, w', not (eqb_ℤ sock minus_one))
    | rtu ↦ private_open line (some b) w >>= λ r. ok (s, r.0, r.1)
    | no_net ↦ ok (s, w, false)
  ]

  -- `if (!req)`
  abbrev pub with_request : Server → Net → Outcome Server
  with_request s n = elim s.request [
    | none ↦ create_on lim n >>= λ m. ok (record s { request = some m })
    | some m ↦ ok s
  ]

  abbrev pub requested : Net → Server × W × Bool → Outcome (Server × W × Bool)
  requested n r = if r.2 then (with_request r.0 n >>= λ s. ok (s, r.1, r.2)) else ok r

  unfoldable pub open_by : Option Backend → Server → W → Outcome (Server × W × Bool)
  open_by none s w = fault
  open_by (some b) s w = listening s b w >>= requested b.net

  unfoldable pub open_server : Server → W → Outcome (Server × W × Bool)
  open_server s w = open_by s.device.backend s w

module _ {W : Type 0} (line : Line W) where
  -- `Server::Private::close`
  abbrev pub unbound : Server → Net → W → Server × W
  unbound s n w = elim n [
    | tcp ↦
        if eqb_ℤ s.sock minus_one
        then (s, w)
        else (record s { sock = minus_one }, line.close_socket w s.sock)
    | other ↦ (s, w)
  ]

  unfoldable pub close_by : Option Backend → Server → W → Outcome (Server × W)
  close_by none s w = fault
  close_by (some b) s w =
      let r = unbound s b.net w in private_close line (some b) r.1 >>= λ w'. ok (r.0, w')

  unfoldable pub close_server : Server → W → Outcome (Server × W)
  close_server s w = close_by s.device.backend s w

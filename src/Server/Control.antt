-- ===== src/Server/Control.antt =====
-- What starts and stops a server, and what it receives: src/server.cpp.
use libmodbuspp.Base.{
  ℕ, zero, suc, Bool, true, false, not, ◌&&◌, Option, none, some, List, length, splice,
  if◌then◌else◌, leb, find, put, ℤ, pos, eqb_ℤ, ltb_ℤ, to_size, Outcome, ok, thrown, fault, ◌>>=◌,
  deref, logic_error, invalid_argument, out_of_range, future_error,
}
use libmodbuspp.Message.{Message, rtu, tcp, clear, set_adu_size}
use libmodbuspp.Message.Create.{Limits}
use libmodbuspp.Slave.{DeviceView, minus_one, set_device}
use libmodbuspp.Device.{Line, Backend, is_valid}
use libmodbuspp.BufferedSlave.Tables.{BufferedSlave}
use libmodbuspp.BufferedSlave.Tables
use libmodbuspp.Server.State.{Server, open_server, close_server}
use libmodbuspp.Server.Task.{Host, task}

abbrev pub is_open : Server → Bool
is_open s = s.device.opened

-- `daemon.joinable ()`
abbrev pub is_running : Server → Bool
is_running s = s.daemon

abbrev pub opened_as : Server → Bool → Server
opened_as s o = record s { device = record s.device { opened = o } }

-- `Device::Private::defaultSlave`, with `Broadcast` and `TcpSlave` of libmodbus.
unfoldable pub default_slave : ℕ → ℕ → Option Backend → ℤ → ℤ
default_slave broadcast tcp_slave none addr = addr
default_slave broadcast tcp_slave (some b) addr =
    if ltb_ℤ addr (pos 0) then elim b.net [ rtu ↦ pos broadcast | _ ↦ pos tcp_slave ] else addr

unfoldable pub has_slave : Server → ℤ → Bool
has_slave s addr = elim (find s.slaves addr) [ none ↦ false | some slv ↦ true ]

-- `at`
unfoldable pub slave_at : Server → ℤ → Outcome BufferedSlave
slave_at s addr = elim (find s.slaves addr) [ none ↦ thrown out_of_range | some slv ↦ ok slv ]

module _ (broadcast tcp_slave : ℕ) (s : Server) (addr : ℤ) where
  unfoldable pub slave_of : Outcome BufferedSlave
  slave_of = slave_at s (default_slave broadcast tcp_slave s.device.backend addr)

  unfoldable pub slave_ptr : Option BufferedSlave
  slave_ptr = find s.slaves (default_slave broadcast tcp_slave s.device.backend addr)

-- The slave that `Server::Private::addSlave` makes or finds.
abbrev pub made_from : Option BufferedSlave → ℤ → Option DeviceView → BufferedSlave
made_from none addr master = Tables.create addr master
made_from (some slv) addr master = record slv { base = set_device slv.base master }

abbrev pub made : Server → ℤ → Option DeviceView → BufferedSlave
made s addr master = made_from (find s.slaves addr) addr master

module _ {W : Type 0} (line : Line W) (lim : Limits) (h : Host W) where
  -- `Device::open`, over `Server::Private::open`.
  unfoldable pub server_open : Server → W → Outcome (Server × W × Bool)
  server_open s w =
      let opening : Outcome (Server × W × Bool) =
        (open_server line lim s w >>= λ r. ok (opened_as r.0 r.2, r.1, r.2)) in
      if is_valid s.device && not (is_open s) then opening else ok (s, w, is_open s)

  -- The thread ends its round and is joined.
  unfoldable pub terminate : Server → W → Server × W
  terminate s w =
      let w' = if eqb_ℤ s.sock minus_one then w else h.shutdown w s.sock in
      (record s { daemon = false }, w')

  unfoldable pub server_close : Server → W → Outcome (Server × W)
  server_close s w =
      let closing : Outcome (Server × W) =
        (let t = terminate s w in
          close_server line t.0 t.1 >>= λ r. ok (opened_as r.0 false, r.1)) in
      if is_open s then closing else ok (s, w)

  -- The future of `stopDaemon` can be fetched once.
  unfoldable pub run : Server → Outcome (Server × Bool)
  run s =
      let started = record s { daemon = true; stop_taken = true } in
      if not (is_running s) && is_open s
      then (if s.stop_taken then thrown future_error else ok (started, true))
      else ok (s, is_running s)

  -- Accepting a client, where there is none.
  abbrev pub accepted : Server → Backend → W → Server × W × Bool
  accepted s b w =
      let (w', sock, rc) = h.accept w b.ctx s.sock in
      (record s { sock = sock }, w', not (ltb_ℤ rc (pos 0)))

  unfoldable pub connected : Server → Backend → W → Server × W × Bool
  connected s b w = elim b.net [
    | tcp ↦ if ltb_ℤ (h.socket w b.ctx) (pos 0) then accepted s b w else (s, w, true)
    | other ↦ (s, w, true)
  ]

  -- What `modbus_receive` stores in the buffer of the request.
  unfoldable pub received : Message → List ℕ → ℤ → Outcome Message
  received m bytes rc =
      let m' = record m { adu = splice m.adu 0 bytes } in
      if leb (length bytes) (length m.adu)
      then ok (if ltb_ℤ (pos 0) rc then set_adu_size m' (to_size rc) else m')
      else fault

  unfoldable pub receive : Server → W → Outcome (Server × W × ℤ)
  receive s w = deref s.device.backend >>= λ b.
      let (s', w', ready) = connected s b w in
      let taken : Outcome (Server × W × ℤ) =
        (deref s'.request >>= λ m. clear lim.tcp_slave m >>= λ m'.
        let (w'', r) = h.receive w' b.ctx in
        received m' r.stored r.rc >>= λ m''. ok (record s' { request = some m'' }, w'', r.rc)) in
      if ready then taken else ok (s', w', minus_one)

  -- A round of the thread.
  unfoldable pub round : Server → W → Outcome (Server × W × ℤ)
  round s w = receive s w >>= λ r. task line lim h r.0 r.1 r.2

  -- The rounds that the thread makes before it is told to stop.
  unfoldable pub loop : ℕ → Server → W → Outcome (Server × W)
  loop zero s w = ok (s, w)
  loop (suc rounds) s w = round s w >>= λ r. loop rounds r.0 r.1

  -- `ready` is whether the future has its value in time.
  unfoldable pub poll : Bool → Server → W → Outcome (Server × W × ℤ)
  poll ready s w =
      if not (is_running s) && is_open s
      then (if ready
          then (receive s w >>= λ r. task line lim h (record r.0 { receiving = false }) r.1 r.2)
          else ok (record s { receiving = true }, w, pos 0))
      else ok (s, w, minus_one)

  -- `Server::addSlave`
  unfoldable pub add_slave : Server → W → ℤ → Option DeviceView → Outcome (Server × W)
  add_slave s w addr master =
      let added : Outcome (Server × W) =
        (deref s.device.backend >>= λ b.
        let (w', rc) = h.set_slave w b.ctx addr in
        if eqb_ℤ rc (pos 0)
        then ok (record s { slaves = put s.slaves addr (made s addr master) }, w')
        else thrown invalid_argument) in
      if is_open s then thrown logic_error else added

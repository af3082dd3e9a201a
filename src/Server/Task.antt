-- ===== src/Server/Task.antt =====
-- `Server::Private::task` of src/server.cpp: what a server does with what it has received.
use libmodbuspp.Base.{
  ℕ, Bool, not, ◌&&◌, Option, none, some, List, if◌then◌else◌, find, put, ℤ, pos, eqb_ℤ, ltb_ℤ,
  Outcome, ok, thrown, ◌>>=◌, runtime_error, deref,
}
use libmodbuspp.Message.{Message, slave}
use libmodbuspp.Message.Create.{Limits}
use libmodbuspp.Slave.{Client, Reply, minus_one}
use libmodbuspp.Device.{Line}
use libmodbuspp.BufferedSlave.Tables.{BufferedSlave, Mapping}
use libmodbuspp.BufferedSlave.Routing.{read_from_device, write_to_device}
use libmodbuspp.Server.State.{Server, open_server, close_server}

-- A function of the user, which gets the server.
abbrev pub Callback : Type 0 → Type 0
Callback W = Server → W → Message → Outcome (Server × W × ℤ)

-- The calls of libmodbus and of the system that a server makes, and the functions of the user, by
-- the number of their slave. `modbus_reply` reads and writes the tables.
pub record Host (W : Type 0) : Type 0 where
  pub shutdown : W → ℤ → W
  pub socket : W → ℕ → ℤ
  pub accept : W → ℕ → ℤ → W × ℤ × ℤ
  pub set_slave : W → ℕ → ℤ → W × ℤ
  pub receive : W → ℕ → W × Reply
  pub reply : W → ℕ → List ℕ → ℤ → Mapping → W × Mapping × ℤ
  pub bad_crc : W → Bool
  pub clear_errno : W → W
  pub before_reply : ℤ → Option (Callback W)
  pub after_reply : ℤ → Option (Callback W)
  pub message : Option (Callback W)
  pub client : ℤ → Client W

module _ {W : Type 0} (line : Line W) (lim : Limits) (h : Host W) where
  abbrev pub Done : Type 0
  Done = Outcome (Server × W × ℤ)

  -- The link is made again after an error.
  unfoldable pub recover : Server → W → Done
  recover s w =
      let again : Done =
        (close_server line s w >>= λ c. open_server line lim c.0 c.1 >>= λ o.
        if o.2 then ok (o.0, h.clear_errno o.1, pos 0) else thrown runtime_error) in
      if s.device.recovery_link then again else ok (s, w, minus_one)

  -- `if (cb) { ret = cb (req, q); if (ret != 0) return ret; }`
  abbrev pub unless : Option (Callback W) → Server → W → Message → (Server → W → Done) → Done
  unless none s w req rest = rest s w
  unless (some cb) s w req rest =
      cb s w req >>= λ r. if eqb_ℤ r.2 (pos 0) then rest r.0 r.1 else ok r

  -- The object that `slv` points to.
  abbrev pub with_slave : Server → ℤ → (BufferedSlave → Done) → Done
  with_slave s id use_it = deref (find s.slaves id) >>= use_it

  abbrev pub stored : Server → ℤ → BufferedSlave → Server
  stored s id slv = record s { slaves = put s.slaves id slv }

  -- The stages of an answer, the last one first. All of them end in `rc = 0`.
  unfoldable pub answer_written : ℤ → Message → Server → W → Done
  answer_written id req s w = with_slave s id λ slv.
      write_to_device (h.client id) slv w (some req) >>= λ r. ok (stored s id r.0, r.1, pos 0)

  unfoldable pub answer_sent : ℕ → ℤ → Message → ℤ → Server → W → Done
  answer_sent ctx id req rc s w = with_slave s id λ slv.
      let (w', map, sent) = h.reply w ctx req.adu rc slv.map in
      let s' = stored s id (record slv { map = map }) in
      if ltb_ℤ sent (pos 0)
      then ok (s', w', pos 0)
      else unless (h.after_reply id) s' w' req (answer_written id req)

  unfoldable pub answer : ℕ → ℤ → Message → ℤ → Server → W → Done
  answer ctx id req rc s w = with_slave s id λ slv.
      read_from_device (h.client id) slv w (some req) >>= λ r.
      let s' = stored s id r.0 in
      if ltb_ℤ r.2 (pos 0)
      then ok (s', r.1, pos 0)
      else unless (h.before_reply id) s' r.1 req (answer_sent ctx id req rc)

  -- A request for a slave that the server has, or for another one.
  unfoldable pub addressed : ℕ → ℤ → Message → ℤ → Server → W → Done
  addressed ctx id req rc s w =
      let (w', e) = h.set_slave w ctx id in
      if eqb_ℤ e (pos 0) then answer ctx id req rc s w' else ok (s, w', pos 0)

  unfoldable pub unaddressed : Message → ℤ → Server → W → Done
  unaddressed req rc s w = elim h.message [ none ↦ ok (s, w, rc) | some cb ↦ cb s w req ]

  unfoldable pub serve : ℤ → Server → W → Done
  serve rc s w = deref s.request >>= λ req. slave req >>= λ id. elim (find s.slaves (pos id)) [
    | none ↦ unaddressed req rc s w
    | some slv ↦ deref s.device.backend >>= λ b. addressed b.ctx (pos id) req rc s w
  ]

  unfoldable pub task : Server → W → ℤ → Done
  task s w rc =
      if eqb_ℤ rc minus_one && not (h.bad_crc w)
      then recover s w
      else (if ltb_ℤ (pos 0) rc then serve rc s w else ok (s, w, rc))

-- ===== src/Server/Invariant.antt =====
-- What holds of a server between two of its operations.
use libmodbuspp.Base.{
  ℕ, ◌≡◌, ◌⊎◌, inr, refl, sym, ap, subst, ◌∙◌, true, false, not, ◌&&◌, Option, none, some, All,
  List, find, put, All-put, All-find, ℤ, pos, eqb_ℤ, ltb_ℤ, Outcome, Ensures, Ensures-ok,
  Ensures-thrown, Ensures-if, Ensures-test, Ensures-then, Ensures-bind, Ensures-deref, Ensures-elim,
}
use libmodbuspp.Message.{Message, slave}
use libmodbuspp.Message.Create.{Limits}
use libmodbuspp.Slave.{minus_one}
use libmodbuspp.Device.{Line, is_valid}
use libmodbuspp.BufferedSlave.Block.Whole.{InPlace, InPlace-IsWhole}
use libmodbuspp.BufferedSlave.Tables.{BufferedSlave, Mapping, Table, table_of}
use libmodbuspp.BufferedSlave.Safe.{AllWhole, IsClient}
use libmodbuspp.BufferedSlave.Routing.{read_from_device, write_to_device}
use libmodbuspp.BufferedSlave.Routing.Base.{Routed, read_from_device-Routed, write_to_device-Routed}
use libmodbuspp.Server.State.{Server, open_server, close_server}
use libmodbuspp.Server.Open.{IsLimits, HasRequest, on, open_server-Ensures, close_server-Ensures}
use libmodbuspp.Server.Task.{
  Callback, Host, recover, unless, stored, answer_written, answer_sent, answer, addressed,
  unaddressed, serve, task,
}

-- A slave under its number, with whole tables.
abbrev pub IsPlaced : ℤ × BufferedSlave → Type 0
IsPlaced e = (e.1.base.id ≡ e.0) × AllWhole e.1

-- A slave stands under its number and has whole tables; an open server has a backend and a request; only an open
-- server has a thread.
pub record IsServer (s : Server) : Type 0 where
  pub placed : All IsPlaced s.slaves
  pub requested : (s.device.opened ≡ false) ⊎ HasRequest s.request
  pub lined : (s.device.opened ≡ false) ⊎ (is_valid s.device ≡ true)
  pub served : (s.daemon ≡ false) ⊎ (s.device.opened ≡ true)

abbrev pub Kept : {W : Type 0} → Server × W × ℤ → Type 0
Kept r = IsServer r.0

-- The state with another state of a slave, which has the same number.
pub stored-IsServer :
    (s : Server) (id : ℤ) (slv : BufferedSlave)
    → IsServer s
    → slv.base.id ≡ id
    → AllWhole slv
    → IsServer (record s { slaves = put s.slaves id slv })
stored-IsServer s id slv v e all = record {
  placed = All-put IsPlaced s.slaves id slv v.placed (e, all);
  requested = v.requested;
  lined = v.lined;
  served = v.served;
}

pub on-IsServer :
    (s : Server) (sock : ℤ) (q : Option Message)
    → IsServer s
    → ((s.device.opened ≡ false) ⊎ HasRequest q)
    → IsServer (on s sock q)
on-IsServer s sock q v h = record {
  placed = v.placed;
  requested = h;
  lined = v.lined;
  served = v.served;
}

module _ {W : Type 0} where
  -- A function of the user that leaves a server well formed.
  abbrev pub KeepsServer : Callback W → Type 0
  KeepsServer cb = (s : Server) (w : W) (req : Message) → IsServer s → Ensures Kept (cb s w req)

  abbrev pub AllKeep : Option (Callback W) → Type 0
  AllKeep cb = (f : Callback W) → cb ≡ some f → KeepsServer f

  -- The functions of the user leave a server well formed, the devices store no more values than
  -- they are asked for, and `modbus_reply` writes into the memory of the tables only.
  pub record IsHost (h : Host W) : Type 0 where
    pub before_keeps : (id : ℤ) → AllKeep (h.before_reply id)
    pub after_keeps : (id : ℤ) → AllKeep (h.after_reply id)
    pub message_keeps : AllKeep h.message
    pub clients : (id : ℤ) → IsClient (h.client id)
    pub replies_in_place :
        (w : W) (ctx : ℕ) (adu : List ℕ) (rc : ℤ) (map : Mapping) (t : Table)
        → InPlace (table_of t map) (table_of t (h.reply w ctx adu rc map).1)

module _ {W : Type 0} (line : Line W) (lim : Limits) (h : Host W) (room : IsLimits lim)
    (user : IsHost h) where
  recover-IsServer : (s : Server) (w : W) → IsServer s → Ensures Kept (recover line lim h s w)
  unfolding recover
  recover-IsServer s w v =
      Ensures-if s.device.recovery_link
        (Ensures-bind (close_server line s w) (close_server-Ensures line s w) λ c k.
          Ensures-bind (open_server line lim c.0 c.1) (open_server-Ensures line lim c.0 c.1 room)
            λ o j.
              Ensures-test o.2
                (λ t. Ensures-ok (
                  let (sock, e) = k in
                  let (sock', q, e', has) = j in
                  subst IsServer (sym e') (
                    on-IsServer c.0 sock' q
                      (subst IsServer (sym e) (on-IsServer s sock s.request v v.requested))
                      (inr (has t)))))
                (λ t. Ensures-thrown))
        (Ensures-ok v)

  unless-IsServer :
      (cb : Option (Callback W)) (s : Server) (w : W) (req : Message)
      (rest : Server → W → Outcome (Server × W × ℤ))
      → AllKeep cb
      → IsServer s
      → ((s : Server) (w : W) → IsServer s → Ensures Kept (rest s w))
      → Ensures Kept (unless line lim h cb s w req rest)
  unless-IsServer none s w req rest k v r = r s w v
  unless-IsServer (some cb) s w req rest k v r =
      Ensures-bind (cb s w req) (k cb refl s w req v)
        λ a u. Ensures-if (eqb_ℤ a.2 (pos 0)) (r a.0 a.1 u) (Ensures-ok u)

  stored-Kept :
      (s : Server) (w : W) (id rc : ℤ) (slv slv' : BufferedSlave)
      → IsServer s
      → find s.slaves id ≡ some slv
      → Routed slv slv'
      → IsServer (stored line lim h s id slv')
  stored-Kept s w id rc slv slv' v e r =
      stored-IsServer s id slv' v
        (ap (λ x. x.id) r.same_base ∙ (All-find IsPlaced s.slaves id slv v.placed e).0) r.whole

  -- The tables of a slave of the server.
  found-AllWhole :
      (s : Server) (id : ℤ) (slv : BufferedSlave)
      → IsServer s
      → find s.slaves id ≡ some slv
      → AllWhole slv
  found-AllWhole s id slv v e = (All-find IsPlaced s.slaves id slv v.placed e).1

  replied-Routed :
      (w : W) (ctx : ℕ) (adu : List ℕ) (rc : ℤ) (slv : BufferedSlave)
      → AllWhole slv
      → Routed slv (record slv { map = (h.reply w ctx adu rc slv.map).1 })
  replied-Routed w ctx adu rc slv all = record {
    same_base = refl;
    whole = λ t.
        InPlace-IsWhole (table_of t slv.map) (table_of t (h.reply w ctx adu rc slv.map).1)
          (user.replies_in_place w ctx adu rc slv.map t) (all t);
  }

  answer_written-IsServer :
      (id : ℤ) (req : Message) (s : Server) (w : W)
      → IsServer s
      → Ensures Kept (answer_written line lim h id req s w)
  unfolding answer_written
  answer_written-IsServer id req s w v = Ensures-deref (find s.slaves id) λ slv e.
      Ensures-bind (write_to_device (h.client id) slv w (some req))
        (write_to_device-Routed (h.client id) slv (found-AllWhole s id slv v e) w (some req))
        λ r b. Ensures-ok (stored-Kept s w id (pos 0) slv r.0 v e b)

  answer_sent-IsServer :
      (ctx : ℕ) (id : ℤ) (req : Message) (rc : ℤ) (s : Server) (w : W)
      → IsServer s
      → Ensures Kept (answer_sent line lim h ctx id req rc s w)
  unfolding answer_sent
  answer_sent-IsServer ctx id req rc s w v = Ensures-deref (find s.slaves id) λ slv e.
      let r = h.reply w ctx req.adu rc slv.map in
      let s' = stored line lim h s id (record slv { map = r.1 }) in
      let u : IsServer s' =
        stored-Kept s w id rc slv (record slv { map = r.1 }) v e
          (replied-Routed w ctx req.adu rc slv (found-AllWhole s id slv v e)) in
      Ensures-if (ltb_ℤ r.2 (pos 0)) (Ensures-ok u) (
        unless-IsServer (h.after_reply id) s' r.0 req (answer_written line lim h id req)
          (user.after_keeps id) u (λ s w k. answer_written-IsServer id req s w k))

  answer-IsServer :
      (ctx : ℕ) (id : ℤ) (req : Message) (rc : ℤ) (s : Server) (w : W)
      → IsServer s
      → Ensures Kept (answer line lim h ctx id req rc s w)
  unfolding answer
  answer-IsServer ctx id req rc s w v = Ensures-deref (find s.slaves id) λ slv e.
      Ensures-bind (read_from_device (h.client id) slv w (some req))
        (read_from_device-Routed (h.client id) slv (found-AllWhole s id slv v e) w (some req))
        λ r b.
          let s' = stored line lim h s id r.0 in
          let u : IsServer s' = stored-Kept s w id rc slv r.0 v e b in
          Ensures-if (ltb_ℤ r.2 (pos 0)) (Ensures-ok u) (
            unless-IsServer (h.before_reply id) s' r.1 req (answer_sent line lim h ctx id req rc)
              (user.before_keeps id) u (λ s w k. answer_sent-IsServer ctx id req rc s w k))

  addressed-IsServer :
      (ctx : ℕ) (id : ℤ) (req : Message) (rc : ℤ) (s : Server) (w : W)
      → IsServer s
      → Ensures Kept (addressed line lim h ctx id req rc s w)
  unfolding addressed
  addressed-IsServer ctx id req rc s w v =
      let r = h.set_slave w ctx id in
      Ensures-if (eqb_ℤ r.1 (pos 0)) (answer-IsServer ctx id req rc s r.0 v) (Ensures-ok v)

  unaddressed-IsServer :
      (req : Message) (rc : ℤ) (s : Server) (w : W)
      → IsServer s
      → Ensures Kept (unaddressed line lim h req rc s w)
  unfolding unaddressed
  unaddressed-IsServer req rc s w v =
      Ensures-elim h.message (Ensures-ok v) (λ cb e. user.message_keeps cb e s w req v)

  serve-IsServer :
      (rc : ℤ) (s : Server) (w : W) → IsServer s → Ensures Kept (serve line lim h rc s w)
  unfolding serve
  serve-IsServer rc s w v = Ensures-deref s.request λ req e. Ensures-then (slave req) λ id.
      Ensures-elim (find s.slaves (pos id)) (unaddressed-IsServer req rc s w v) (λ slv f.
        Ensures-deref s.device.backend λ b g. addressed-IsServer b.ctx (pos id) req rc s w v)

  -- Whatever was received, `task` leaves a server well formed, if the functions of the user do.
  pub task-IsServer :
      (s : Server) (w : W) (rc : ℤ) → IsServer s → Ensures Kept (task line lim h s w rc)
  unfolding task
  task-IsServer s w rc v =
      Ensures-if (eqb_ℤ rc minus_one && not (h.bad_crc w)) (recover-IsServer s w v)
        (Ensures-if (ltb_ℤ (pos 0) rc) (serve-IsServer rc s w v) (Ensures-ok v))

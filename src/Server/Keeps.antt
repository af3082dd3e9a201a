-- ===== src/Server/Keeps.antt =====
-- The operations of a server keep it well formed.
use libmodbuspp.Base.{
  ◌≡◌, inl, inr, refl, sym, subst, arith, Bool, true, false, not, ◌&&◌, Bool-cases, Option, none,
  some, if◌then◌else◌, find, All-find, ℤ, pos, eqb_ℤ, ltb_ℤ, Ensures, Ensures-ok, Ensures-thrown,
  Ensures-if, Ensures-test, Ensures-then, Ensures-bind, Ensures-deref,
}
use libmodbuspp.Message.{Message, tcp, rtu, no_net, clear}
use libmodbuspp.Message.Create.{Limits}
use libmodbuspp.Slave
use libmodbuspp.Slave.{DeviceView, minus_one}
use libmodbuspp.Device.{Line, Backend, is_valid}
use libmodbuspp.BufferedSlave.Tables.{BufferedSlave}
use libmodbuspp.BufferedSlave.Tables
use libmodbuspp.BufferedSlave.Reach.{create-AllWhole}
use libmodbuspp.Server.State.{Server, open_server, close_server}
use libmodbuspp.Server.Open.{IsLimits, HasRequest, on, open_server-Ensures, close_server-Ensures}
use libmodbuspp.Server.Task.{Host}
use libmodbuspp.Server.Control.{
  is_open, opened_as, server_open, terminate, server_close, run, accepted, connected, received,
  receive, round, made_from, made, poll, add_slave,
}
use libmodbuspp.Server.Invariant.{
  IsPlaced, IsServer, Kept, IsHost, on-IsServer, stored-IsServer, task-IsServer,
}

abbrev pub KeptBy : {B : Type 0} → Server × B → Type 0
KeptBy r = IsServer r.0

abbrev pub KeptAnswer : {W : Type 0} → Server × W × Bool → Type 0
KeptAnswer r = IsServer r.0

made-IsPlaced :
    (s : Server) (addr : ℤ) (master : Option DeviceView)
    → IsServer s
    → IsPlaced (addr, made s addr master)
unfolding Tables.create Slave.create
made-IsPlaced s addr master v = found (find s.slaves addr) refl
  where
    found :
        (o : Option BufferedSlave)
        → find s.slaves addr ≡ o
        → IsPlaced (addr, made_from o addr master)
    found none e = (refl, create-AllWhole addr master)
    found (some slv) e = All-find IsPlaced s.slaves addr slv v.placed e

module _ {W : Type 0} (line : Line W) (lim : Limits) (h : Host W) (room : IsLimits lim)
    (user : IsHost h) where
  pub terminate-IsServer : (s : Server) (w : W) → IsServer s → IsServer (terminate line lim h s w).0
  unfolding terminate
  terminate-IsServer s w v = record {
    placed = v.placed;
    requested = v.requested;
    lined = v.lined;
    served = inl refl;
  }

  closed-IsServer :
      (s t : Server) (sock : ℤ)
      → IsServer s
      → t ≡ record s { daemon = false; sock = sock }
      → IsServer (opened_as t false)
  closed-IsServer s t sock v e =
      subst (λ t. IsServer (opened_as t false)) (sym e)
        (record { placed = v.placed; requested = inl refl; lined = inl refl; served = inl refl })

  pub server_close-IsServer :
      (s : Server) (w : W) → IsServer s → Ensures KeptBy (server_close line lim h s w)
  unfolding server_close terminate
  server_close-IsServer s w v =
      let t = terminate line lim h s w in
      Ensures-if (is_open s)
        (Ensures-bind (close_server line t.0 t.1) (close_server-Ensures line t.0 t.1)
          λ r k. Ensures-ok (closed-IsServer s r.0 k.0 v k.1))
        (Ensures-ok v)

  opening-IsServer :
      (s t : Server) (sock : ℤ) (q : Option Message) (b : Bool)
      → IsServer s
      → is_valid s.device && not (is_open s) ≡ true
      → t ≡ on s sock q
      → (b ≡ true → HasRequest q)
      → IsServer (opened_as t b)
  unfolding is_valid
  opening-IsServer s t sock q b v f e has =
      let closed : s.device.opened ≡ false = ground arith in
      let valid : is_valid s.device ≡ true = ground arith in
      let idle : s.daemon ≡ false = elim v.served [ inl d ↦ d | inr o ↦ absurd (ground arith) ] in
      subst (λ t. IsServer (opened_as t b)) (sym e)
        (record {
          placed = v.placed;
          requested = elim (Bool-cases b) [ inl y ↦ inr (has y) | inr n ↦ inl n ];
          lined = inr valid;
          served = inl idle;
        })

  pub server_open-IsServer :
      (s : Server) (w : W) → IsServer s → Ensures KeptAnswer (server_open line lim h s w)
  unfolding server_open
  server_open-IsServer s w v =
      Ensures-test (is_valid s.device && not (is_open s))
        (λ f. Ensures-bind (open_server line lim s w) (open_server-Ensures line lim s w room) λ r k.
          let (sock, q, e, has) = k in Ensures-ok (opening-IsServer s r.0 sock q r.2 v f e has))
        (λ f. Ensures-ok v)

  pub run-IsServer : (s : Server) → IsServer s → Ensures KeptBy (run line lim h s)
  unfolding run
  run-IsServer s v =
      Ensures-test (not s.daemon && s.device.opened)
        (λ f. Ensures-if s.stop_taken Ensures-thrown (
          Ensures-ok (record {
            placed = v.placed;
            requested = v.requested;
            lined = v.lined;
            served = inr (ground arith);
          })))
        (λ f. Ensures-ok v)

  pub connected-IsServer :
      (s : Server) (b : Backend) (w : W) → IsServer s → IsServer (connected line lim h s b w).0
  unfolding connected
  connected-IsServer s b w v =
      elim b.net as (λ n. IsServer (connected line lim h s (record { net = n; ctx = b.ctx }) w).0) [
        | tcp ↦
            elim (ltb_ℤ (h.socket w b.ctx) (pos 0))
              as (λ t. IsServer (if t then accepted line lim h s b w else (s, w, true)).0) [
                | true ↦ on-IsServer s (h.accept w b.ctx s.sock).1 s.request v v.requested
                | false ↦ v
              ]
        | rtu ↦ v
        | no_net ↦ v
      ]

  pub receive-IsServer : (s : Server) (w : W) → IsServer s → Ensures Kept (receive line lim h s w)
  unfolding receive
  receive-IsServer s w v = Ensures-deref s.device.backend λ b e.
      let c = connected line lim h s b w in
      let k = connected-IsServer s b w v in
      Ensures-if c.2
        (Ensures-deref c.0.request λ m q. Ensures-then (clear lim.tcp_slave m) λ m'.
          let r = h.receive c.1 b.ctx in
          Ensures-then (received line lim h m' r.1.stored r.1.rc)
            λ m''. Ensures-ok (on-IsServer c.0 c.0.sock (some m'') k (inr (m'', refl))))
        (Ensures-ok k)

  pub round-IsServer : (s : Server) (w : W) → IsServer s → Ensures Kept (round line lim h s w)
  unfolding round
  round-IsServer s w v =
      Ensures-bind (receive line lim h s w) (receive-IsServer s w v)
        λ r k. task-IsServer line lim h room user r.0 r.1 r.2 k

  waiting-IsServer : (s : Server) (b : Bool) → IsServer s → IsServer (record s { receiving = b })
  waiting-IsServer s b v = record {
    placed = v.placed;
    requested = v.requested;
    lined = v.lined;
    served = v.served;
  }

  pub poll-IsServer :
      (ready : Bool) (s : Server) (w : W) → IsServer s → Ensures Kept (poll line lim h ready s w)
  unfolding poll
  poll-IsServer ready s w v =
      Ensures-if (not s.daemon && s.device.opened)
        (Ensures-if ready
          (Ensures-bind (receive line lim h s w) (receive-IsServer s w v) λ r k.
            task-IsServer line lim h room user (record r.0 { receiving = false }) r.1 r.2
              (waiting-IsServer r.0 false k))
          (Ensures-ok (waiting-IsServer s true v)))
        (Ensures-ok v)

  pub add_slave-IsServer :
      (s : Server) (w : W) (addr : ℤ) (master : Option DeviceView)
      → IsServer s
      → Ensures KeptBy (add_slave line lim h s w addr master)
  unfolding add_slave
  add_slave-IsServer s w addr master v = Ensures-if s.device.opened Ensures-thrown (
      Ensures-deref s.device.backend λ b e.
        let r = h.set_slave w b.ctx addr in
        Ensures-if (eqb_ℤ r.1 (pos 0))
          (let placed = made-IsPlaced s addr master v in
            Ensures-ok (stored-IsServer s addr (made s addr master) v placed.0 placed.1))
          Ensures-thrown)

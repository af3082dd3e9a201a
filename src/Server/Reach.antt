-- ===== src/Server/Reach.antt =====
-- The life of a server: the calls of its user and the rounds of its thread, in any order.
use libmodbuspp.Base.{
  ◌≡◌, inl, refl, ◌∙◌, Bool, true, false, Option, none, some, [], find, put, All-find, ℤ, ok,
}
use libmodbuspp.Message.Create.{Limits}
use libmodbuspp.Slave.{DeviceView, minus_one}
use libmodbuspp.Device.{Line, Backend, is_valid, set_recovery_link}
use libmodbuspp.BufferedSlave.Allocate.{Allocator}
use libmodbuspp.BufferedSlave.Allocate.Laws.{IsMemory}
use libmodbuspp.BufferedSlave.Tables.{BufferedSlave}
use libmodbuspp.BufferedSlave.Reach as Slaves
use libmodbuspp.Server.State.{Server}
use libmodbuspp.Server.Open.{IsLimits}
use libmodbuspp.Server.Task.{Host}
use libmodbuspp.Server.Control.{server_open, terminate, server_close, run, round, poll, add_slave}
use libmodbuspp.Server.Invariant.{IsPlaced, IsServer, IsHost, stored-IsServer}
use libmodbuspp.Server.Keeps.{
  terminate-IsServer, server_close-IsServer, server_open-IsServer, run-IsServer, round-IsServer,
  poll-IsServer, add_slave-IsServer,
}

-- A server as its constructor leaves it, with the backend that `setBackend` makes.
abbrev pub new_server : Option Backend → Server
new_server backend = record {
  device = record { opened = false; backend = backend; recovery_link = false; debug = false };
  sock = minus_one;
  request = none;
  slaves = [];
  receiving = false;
  daemon = false;
  stop_taken = false;
}

module _ {W : Type 0} (line : Line W) (lim : Limits) (h : Host W) (al : Allocator) where
  -- A call that returns. Only a thread that runs makes a round. The user may call the slaves too,
  -- between the rounds, if they keep their numbers and no resize is refused.
  pub data Step (s : Server) (w : W) : Server → W → Type 0 where
    opens : {r : Server × W × Bool} → server_open line lim h s w ≡ ok r → Step s w r.0 r.1
    closes : {r : Server × W} → server_close line lim h s w ≡ ok r → Step s w r.0 r.1
    starts : {r : Server × Bool} → run line lim h s ≡ ok r → Step s w r.0 w
    links : (on : Bool) → Step s w (record s { device = set_recovery_link s.device on }) w
    stops : Step s w (terminate line lim h s w).0 (terminate line lim h s w).1
    rounds : {r : Server × W × ℤ} → s.daemon ≡ true → round line lim h s w ≡ ok r → Step s w r.0 r.1
    polls :
        {r : Server × W × ℤ} (ready : Bool) → poll line lim h ready s w ≡ ok r → Step s w r.0 r.1
    adds :
        {r : Server × W} (addr : ℤ) (master : Option DeviceView)
        → add_slave line lim h s w addr master ≡ ok r
        → Step s w r.0 r.1
    uses :
        (id : ℤ) (slv slv' : BufferedSlave) (x : W)
        → find s.slaves id ≡ some slv
        → Slaves.Reach al (h.client id) slv slv'
        → slv'.base.id ≡ slv.base.id
        → Step s w (record s { slaves = put s.slaves id slv' }) x

  pub data Reach (s : Server) (w : W) : Server → W → Type 0 where
    here : Reach s w s w
    then : {t : Server} {x : W} {u : Server} {y : W} → Reach s w t x → Step t x u y → Reach s w u y

module _ {W : Type 0} (line : Line W) (lim : Limits) (h : Host W) (al : Allocator)
    (room : IsLimits lim) (user : IsHost h) (memory : IsMemory al) where
  Step-IsServer :
      {s : Server} {w : W} {t : Server} {x : W}
      → Step line lim h al s w t x
      → IsServer s
      → IsServer t
  unfolding is_valid
  Step-IsServer {s} {w} (opens {r} e) v =
      (server_open-IsServer line lim h room user s w v).holds r e
  Step-IsServer {s} {w} (closes {r} e) v =
      (server_close-IsServer line lim h room user s w v).holds r e
  Step-IsServer {s} (starts {r} e) v = (run-IsServer line lim h room user s v).holds r e
  Step-IsServer (links on) v = record {
    placed = v.placed;
    requested = v.requested;
    lined = v.lined;
    served = v.served;
  }
  Step-IsServer {s} {w} stops v = terminate-IsServer line lim h room user s w v
  Step-IsServer {s} {w} (rounds {r} d e) v = (round-IsServer line lim h room user s w v).holds r e
  Step-IsServer {s} {w} (polls {r} ready e) v =
      (poll-IsServer line lim h room user ready s w v).holds r e
  Step-IsServer {s} {w} (adds {r} addr master e) v =
      (add_slave-IsServer line lim h room user s w addr master v).holds r e
  Step-IsServer {s} (uses id slv slv' x f r same) v =
      let (number, all) = All-find IsPlaced s.slaves id slv v.placed f in
      stored-IsServer s id slv' v (same ∙ number)
        (Slaves.Reach-keeps al memory (h.client id) slv slv' (user.clients id) all r)

  Reach-kept :
      {s : Server} {w : W} {t : Server} {x : W}
      → Reach line lim h al s w t x
      → IsServer s
      → IsServer t
  Reach-kept here v = v
  Reach-kept (then r s) v = Step-IsServer s (Reach-kept r v)

  new_server-IsServer : (backend : Option Backend) → IsServer (new_server backend)
  new_server-IsServer backend = record {
    placed = tt;
    requested = inl refl;
    lined = inl refl;
    served = inl refl;
  }

  -- In every state that a server reaches from its construction, by calls that return, rounds of its
  -- thread and calls of its slaves, the slaves stand under their numbers, all their tables are
  -- whole, an open server has a backend and a request, and only an open server has a thread. The
  -- user gives no slave of the server another number, no resize of a table was refused by the
  -- allocator, the functions of the user leave the server so, `modbus_reply` writes into the memory
  -- of the tables only, the allocator leaves as much memory as it is asked for, and the devices
  -- store no more values than they are asked for.
  pub Reach-IsServer :
      (backend : Option Backend) (w : W) (s : Server) (x : W)
      → Reach line lim h al (new_server backend) w s x
      → IsServer s
  Reach-IsServer backend w s x r = Reach-kept r (new_server-IsServer backend)

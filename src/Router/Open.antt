-- ===== src/Router/Open.antt =====
-- A router opens all of its masters or none.
use libmodbuspp.Base.{
  ℕ, ◌≡◌, ◌⊎◌, inl, inr, refl, arith, Bool, true, false, Option, some, none, List, [], ◌∷◌, All, ok,
  Bool-cases, eqb_ℤ, pos,
}
use libmodbuspp.Device.{
  Line, Backend, Device, is_valid, open_device, close_device, private_open, private_close,
}
use libmodbuspp.Message.Create.{Limits}
use libmodbuspp.Server.State.{Server}
use libmodbuspp.Server.Open.{IsLimits, open_server-total}
use libmodbuspp.Router.{Router, Masters, open_masters, close_masters, settle, open_router}

-- A device that is open has a backend.
abbrev pub IsDevice : Device → Type 0
IsDevice d = (d.opened ≡ false) ⊎ (is_valid d ≡ true)

abbrev pub IsOpen : Device → Type 0
IsOpen d = d.opened ≡ true

abbrev pub IsClosed : Device → Type 0
IsClosed d = d.opened ≡ false

-- What holds of the device of a master with a name.
abbrev pub Named : (Device → Type 0) → List ℕ × Device → Type 0
Named P e = P e.1

abbrev device : Bool → Option Backend → Bool → Bool → Device
device opened backend recovery debug = record {
  opened = opened;
  backend = backend;
  recovery_link = recovery;
  debug = debug;
}

module _ {W : Type 0} (line : Line W) (w : W) where
  abbrev Opens : Device → Type 0
  Opens d = (d' : Device) × (w' : W) × (open_device line d w ≡ ok (d', w', d'.opened)) × IsDevice d'

  abbrev Closes : Device → Type 0
  Closes d = (d' : Device) × (w' : W) × (close_device line d w ≡ ok (d', w')) × IsClosed d'

  opens :
      (opened : Bool) (backend : Option Backend) (recovery debug : Bool)
      → IsDevice (device opened backend recovery debug)
      → Opens (device opened backend recovery debug)
  unfolding open_device is_valid private_open
  opens true none recovery debug h = (device true none recovery debug, w, refl, h)
  opens false none recovery debug h = (device false none recovery debug, w, refl, h)
  opens true (some b) recovery debug h = (device true (some b) recovery debug, w, refl, h)
  opens false (some b) recovery debug h = (
    device (eqb_ℤ (line.connect w b.ctx).1 (pos 0)) (some b) recovery debug,
    (line.connect w b.ctx).0,
    refl,
    inr refl,
  )

  closes :
      (opened : Bool) (backend : Option Backend) (recovery debug : Bool)
      → IsDevice (device opened backend recovery debug)
      → Closes (device opened backend recovery debug)
  unfolding close_device is_valid private_close
  closes false backend recovery debug h = (device false backend recovery debug, w, refl, refl)
  closes true none recovery debug h = absurd (ground arith)
  closes true (some b) recovery debug h =
      (device false (some b) recovery debug, line.close w b.ctx, refl, refl)

module _ {W : Type 0} (line : Line W) where
  -- Opening in turn while all is well: the answer tells whether all are open.
  open_masters-IsOpen :
      (good : Bool) (ms : Masters) (w : W)
      → All (Named IsDevice) ms
      → (ms' : Masters) × (w' : W) × (answer : Bool) × (open_masters line good ms w
          ≡ ok (ms', w', answer))
        × All (Named IsDevice) ms'
        × (answer ≡ true → (good ≡ true) × All (Named IsOpen) ms')
  unfolding open_masters
  open_masters-IsOpen good [] w h = ([], w, good, refl, tt, λ e. (e, tt))
  open_masters-IsOpen false (m ∷ ms) w h =
      let (ms', w', answer, e, v, all) = open_masters-IsOpen false ms w h.1 in
      (m ∷ ms', w', answer, rw e, (h.0, v), λ t. absurd (ground (arith, all t)))
  open_masters-IsOpen true ((n, m) ∷ ms) w h =
      let (m', w1, o, u) = opens line w m.opened m.backend m.recovery_link m.debug h.0 in
      let (ms', w', answer, e, v, all) = open_masters-IsOpen m'.opened ms w1 h.1 in
      ((n, m') ∷ ms', w', answer, rw (o, e), (u, v), λ t. (refl, ((all t).0, (all t).1)))

  close_masters-IsClosed :
      (ms : Masters) (w : W)
      → All (Named IsDevice) ms
      → (ms' : Masters) × (w' : W) × (close_masters line ms w ≡ ok (ms', w'))
        × All (Named IsClosed) ms'
  unfolding close_masters
  close_masters-IsClosed [] w h = ([], w, refl, tt)
  close_masters-IsClosed ((n, m) ∷ ms) w h =
      let (m', w1, c, u) = closes line w m.opened m.backend m.recovery_link m.debug h.0 in
      let (ms', w', e, v) = close_masters-IsClosed ms w1 h.1 in
      ((n, m') ∷ ms', w', rw (c, e), (u, v))

  -- When the router is closed after a failure.
  settled :
      (s : Server) (ms : Masters) (w : W) (good : Bool)
      → All (Named IsDevice) ms
      → (good ≡ true → All (Named IsOpen) ms)
      → (r' : Router) × (w' : W) × (answer : Bool) × (settle line s ms w good ≡ ok (r', w', answer))
        × (answer ≡ true → All (Named IsOpen) r'.masters)
        × (answer ≡ false → All (Named IsClosed) r'.masters)
  settled s ms w true v h =
      (record { server = s; masters = ms }, w, true, refl, h, λ e. absurd (ground arith))
  settled s ms w false v h =
      let (ms', w', e, c) = close_masters-IsClosed ms w v in
      (record { server = s; masters = ms' }, w', false, rw e, λ t. absurd (ground arith), λ t. c)

  -- `open` on a router with a backend, where every master that is open has one too and a TCP message
  -- has room for its header, returns; if it answers true then all masters are open, and if it
  -- answers false then all masters are closed.
  pub open_router_atomic :
      (lim : Limits) (r : Router) (b : Backend) (w : W)
      → IsLimits lim
      → r.server.device.backend ≡ some b
      → All (Named IsDevice) r.masters
      → (r' : Router) × (w' : W) × (answer : Bool) × (open_router line lim r w
          ≡ ok (r', w', answer))
        × (answer ≡ true → All (Named IsOpen) r'.masters)
        × (answer ≡ false → All (Named IsClosed) r'.masters)
  unfolding open_router
  open_router_atomic lim r b w l e h =
      let (ms, w1, good, o, v, all) = open_masters-IsOpen true r.masters w h in
      elim (Bool-cases good) [
        | inl t ↦
            let (sock, q, w2, answer, opening, has) =
              open_server-total line lim r.server b w1 e l in
            let (r', w3, a, d, opened, closed) =
              settled (record r.server { sock = sock; request = q }) ms w2 answer v
                (λ u. (all t).1) in
            (r', w3, a, rw (o, t, opening) d, opened, closed)
        | inr f ↦
            let (r', w3, a, d, opened, closed) =
              settled r.server ms w1 false v (λ u. absurd (ground arith)) in
            (r', w3, a, rw (o, f) d, opened, closed)
      ]

-- ===== src/Server/Open.antt =====
-- Opening and closing the line of a server touches its socket and its request only.
use libmodbuspp.Base.{
  ℕ, ◌<◌, ◌≡◌, refl, ap, sym, subst, arith, Bool, true, false, Option, some, none, Bool-cases, inl,
  inr, length, length-replicate, replicate, set, lt→ltb, eqb_ℤ, ℤ, pos, not, ok, ◌>>=◌, ◌∙◌,
  Ensures, Ensures-ok, Ensures-fault,
}
use libmodbuspp.Message.{Message, Net, tcp, rtu, no_net}
use libmodbuspp.Message.Create.{Limits, fresh, create_on}
use libmodbuspp.Slave.{minus_one}
use libmodbuspp.Device.{Line, Backend, private_open, private_close}
use libmodbuspp.Server.State.{
  Server, listening, requested, open_by, open_server, unbound, close_by, close_server,
}

-- A message for TCP has room for its header.
abbrev pub IsLimits : Limits → Type 0
IsLimits lim = 6 < lim.max_adu_length tcp

-- `s` with another socket and another request.
abbrev pub on : Server → ℤ → Option Message → Server
on s sock request = record s { sock = sock; request = request }

abbrev pub HasRequest : Option Message → Type 0
HasRequest q = (m : Message) × (q ≡ some m)

pub create_on-total :
    (lim : Limits) (n : Net) → IsLimits lim → (m : Message) × (create_on lim n ≡ ok m)
unfolding create_on
create_on-total lim tcp h = (
  record (fresh lim tcp) { adu = set (fresh lim tcp).adu 6 lim.tcp_slave },
  rw (
      lt→ltb 6 (length {A = ℕ} (replicate (lim.max_adu_length tcp) 0))
        (omega (arith, length-replicate {A = ℕ} (lim.max_adu_length tcp) 0))),
)
create_on-total lim rtu h = (_, refl)
create_on-total lim no_net h = (_, refl)

module _ {W : Type 0} (line : Line W) (lim : Limits) where
  listens :
      (s : Server) (net : Net) (ctx : ℕ) (w : W)
      → (sock : ℤ) × (w' : W) × (answer : Bool) × (listening line lim s
            (record { net = net; ctx = ctx })
            w
          ≡ ok (record s { sock = sock }, w', answer))
  unfolding private_open
  listens s tcp ctx w =
      (_, (line.listen w ctx).0, not (eqb_ℤ (line.listen w ctx).1 minus_one), refl)
  listens s rtu ctx w = (s.sock, (line.connect w ctx).0, eqb_ℤ (line.connect w ctx).1 (pos 0), refl)
  listens s no_net ctx w = (s.sock, w, false, refl)

  abbrev Requests : Server → W → Option Message → Net → Bool → Type 0
  Requests s w q n answer =
      (q' : Option Message) × (requested line lim n (record s { request = q }, w, answer)
        ≡ ok (record s { request = q' }, w, answer))
      × (answer ≡ true → HasRequest q')

  requests :
      (s : Server) (w : W) (q : Option Message) (n : Net) (answer : Bool)
      → IsLimits lim
      → Requests s w q n answer
  requests s w q n false h = (q, refl, λ e. absurd (ground arith))
  requests s w (some m) n true h = (some m, refl, λ e. (m, refl))
  requests s w none n true h =
      let (m, made) = create_on-total lim n h in (some m, rw made, λ e. (m, refl))

  -- What the opening of a server's line does, where the server has a backend.
  abbrev Opened : Server → W → Option Backend → Type 0
  Opened s w backend =
      (sock : ℤ) × (q : Option Message) × (w' : W) × (answer : Bool) × (open_by line lim backend s w
        ≡ ok (on s sock q, w', answer))
      × (answer ≡ true → HasRequest q)

  opened : (s : Server) (b : Backend) (w : W) → IsLimits lim → Opened s w (some b)
  unfolding open_by
  opened s b w h =
      let (sock, w', answer, q) = listens s b.net b.ctx w in
      let (r, made, has) = requests (record s { sock = sock }) w' s.request b.net answer h in
      (sock, r, w', answer, ap (λ m. m >>= requested line lim b.net) q ∙ made, has)

  pub open_server-total :
      (s : Server) (b : Backend) (w : W)
      → s.device.backend ≡ some b
      → IsLimits lim
      → (sock : ℤ) × (q : Option Message) × (w' : W) × (answer : Bool) × (open_server line lim s w
          ≡ ok (on s sock q, w', answer))
        × (answer ≡ true → HasRequest q)
  unfolding open_server
  open_server-total s b w e h = subst (Opened s w) (sym e) (opened s b w h)

module _ {W : Type 0} (line : Line W) where
  abbrev Unbound : Server → Net → W → Type 0
  Unbound s n w = (sock : ℤ) × (w' : W) × (unbound line s n w ≡ (record s { sock = sock }, w'))

  unbinds : (s : Server) (n : Net) (w : W) → Unbound s n w
  unbinds s tcp w = elim (Bool-cases (eqb_ℤ s.sock minus_one)) [
    | inl e ↦ (s.sock, w, rw e)
    | inr e ↦ (minus_one, line.close_socket w s.sock, rw e)
  ]
  unbinds s rtu w = (s.sock, w, refl)
  unbinds s no_net w = (s.sock, w, refl)

  abbrev Closed : Server → W → Option Backend → Type 0
  Closed s w backend =
      (sock : ℤ) × (w' : W) × (close_by line backend s w ≡ ok (record s { sock = sock }, w'))

  closed : (s : Server) (b : Backend) (w : W) → Closed s w (some b)
  unfolding close_by private_close
  closed s b w =
      let (sock, w', e) = unbinds s b.net w in
      (sock, line.close w' b.ctx, ap (λ r. ok (r.0, line.close r.1 b.ctx)) e)

  pub close_server-total :
      (s : Server) (b : Backend) (w : W)
      → s.device.backend ≡ some b
      → (sock : ℤ) × (w' : W) × (close_server line s w ≡ ok (record s { sock = sock }, w'))
  unfolding close_server
  close_server-total s b w e = subst (Closed s w) (sym e) (closed s b w)

module _ {W : Type 0} (line : Line W) where
  -- The result of a call that returns.
  abbrev pub OpenedTo : Server → Server × W × Bool → Type 0
  OpenedTo s r =
      (sock : ℤ) × (q : Option Message) × (r.0 ≡ on s sock q) × (r.2 ≡ true → HasRequest q)

  abbrev pub ClosedTo : Server → Server × W → Type 0
  ClosedTo s r = (sock : ℤ) × (r.0 ≡ record s { sock = sock })

  opened_by :
      (lim : Limits) (s : Server) (w : W) (backend : Option Backend)
      → IsLimits lim
      → Ensures (OpenedTo s) (open_by line lim backend s w)
  unfolding open_by
  opened_by lim s w none h = Ensures-fault
  opened_by lim s w (some b) h =
      let (sock, q, w', answer, e, has) = opened line lim s b w h in
      subst (Ensures (OpenedTo s)) (sym e) (Ensures-ok (sock, q, refl, has))

  pub open_server-Ensures :
      (lim : Limits) (s : Server) (w : W)
      → IsLimits lim
      → Ensures (OpenedTo s) (open_server line lim s w)
  unfolding open_server
  open_server-Ensures lim s w h = opened_by lim s w s.device.backend h

  closed_by :
      (s : Server) (w : W) (backend : Option Backend)
      → Ensures (ClosedTo s) (close_by line backend s w)
  unfolding close_by
  closed_by s w none = Ensures-fault
  closed_by s w (some b) =
      let (sock, w', e) = closed line s b w in
      subst (Ensures (ClosedTo s)) (sym e) (Ensures-ok (sock, refl))

  pub close_server-Ensures : (s : Server) (w : W) → Ensures (ClosedTo s) (close_server line s w)
  unfolding close_server
  close_server-Ensures s w = closed_by s w s.device.backend

-- ===== src/Server/Frame.antt =====
-- Which slaves a request changes.
use libmodbuspp.Base.{
  ℕ, ◌≡◌, ◌≢◌, refl, sym, ap, subst, ◌∙◌, not, ◌&&◌, Option, none, some, find, put, find-put_ne, ℤ,
  pos, eqb_ℤ, ltb_ℤ, Outcome, ok, Ensures, Ensures-ok, Ensures-thrown, Ensures-if, Ensures-then,
  Ensures-bind, Ensures-deref, Ensures-elim,
}
use libmodbuspp.Message.{Message, slave}
use libmodbuspp.Message.Create.{Limits}
use libmodbuspp.Slave.{minus_one}
use libmodbuspp.Device.{Line}
use libmodbuspp.BufferedSlave.Tables.{BufferedSlave}
use libmodbuspp.BufferedSlave.Routing.{read_from_device, write_to_device}
use libmodbuspp.Server.State.{Server, Slaves, open_server, close_server}
use libmodbuspp.Server.Open.{IsLimits, open_server-Ensures, close_server-Ensures}
use libmodbuspp.Server.Task.{
  Callback, Host, recover, unless, stored, answer_written, answer_sent, answer, addressed,
  unaddressed, serve, task,
}

-- No slave but `id` differs.
abbrev pub SameBut : ℤ → Slaves → Slaves → Type 0
SameBut id m m' = (j : ℤ) → id ≢ j → find m' j ≡ find m j

abbrev pub Frames : {W : Type 0} → ℤ → Server → Server × W × ℤ → Type 0
Frames id s r = SameBut id s.slaves r.0.slaves

-- No function of the user is set.
abbrev pub IsQuiet : {W : Type 0} → Host W → Type 0
IsQuiet h =
    ((id : ℤ) → h.before_reply id ≡ none)
    × ((id : ℤ) → h.after_reply id ≡ none)
    × (h.message ≡ none)

-- The slave that the request of `s` is for.
abbrev pub IsFor : Server → ℕ → Type 0
IsFor s id = (req : Message) × (s.request ≡ some req) × (slave req ≡ ok id)

module _ {W : Type 0} (line : Line W) (lim : Limits) (h : Host W) (room : IsLimits lim)
    (quiet : IsQuiet h) where
  put-SameBut : (m : Slaves) (id : ℤ) (slv : BufferedSlave) → SameBut id m (put m id slv)
  put-SameBut m id slv j ne = find-put_ne m id j slv ne

  SameBut-trans :
      (id : ℤ) (m m' m'' : Slaves) → SameBut id m m' → SameBut id m' m'' → SameBut id m m''
  SameBut-trans id m m' m'' f g j ne = g j ne ∙ f j ne

  skips :
      (id : ℤ) (cb : Option (Callback W)) (s s' : Server) (w : W) (req : Message)
      (rest : Server → W → Outcome (Server × W × ℤ))
      → cb ≡ none
      → Ensures (Frames id s) (rest s' w)
      → Ensures (Frames id s) (unless line lim h cb s' w req rest)
  skips id cb s s' w req rest e k =
      subst (λ c. Ensures (Frames id s) (unless line lim h c s' w req rest)) (sym e) k

  answer_written-frame :
      (id : ℤ) (req : Message) (s t : Server) (w : W)
      → SameBut id s.slaves t.slaves
      → Ensures (Frames id s) (answer_written line lim h id req t w)
  unfolding answer_written
  answer_written-frame id req s t w f = Ensures-deref (find t.slaves id) λ slv e.
      Ensures-then (write_to_device (h.client id) slv w (some req)) λ r.
        Ensures-ok
          (SameBut-trans id s.slaves t.slaves (put t.slaves id r.0) f (put-SameBut t.slaves id r.0))

  answer_sent-frame :
      (ctx : ℕ) (id : ℤ) (req : Message) (rc : ℤ) (s t : Server) (w : W)
      → SameBut id s.slaves t.slaves
      → Ensures (Frames id s) (answer_sent line lim h ctx id req rc t w)
  unfolding answer_sent
  answer_sent-frame ctx id req rc s t w f = Ensures-deref (find t.slaves id) λ slv e.
      let r = h.reply w ctx req.adu rc slv.map in
      let slv' = record slv { map = r.1 } in
      let t' = stored line lim h t id slv' in
      let g =
        SameBut-trans id s.slaves t.slaves (put t.slaves id slv') f
          (put-SameBut t.slaves id slv') in
      Ensures-if (ltb_ℤ r.2 (pos 0)) (Ensures-ok g) (
        skips id (h.after_reply id) s t' r.0 req (answer_written line lim h id req) (quiet.1 id)
          (answer_written-frame id req s t' r.0 g))

  answer-frame :
      (ctx : ℕ) (id : ℤ) (req : Message) (rc : ℤ) (s : Server) (w : W)
      → Ensures (Frames id s) (answer line lim h ctx id req rc s w)
  unfolding answer
  answer-frame ctx id req rc s w = Ensures-deref (find s.slaves id) λ slv e.
      Ensures-then (read_from_device (h.client id) slv w (some req)) λ r.
        let s' = stored line lim h s id r.0 in
        let g = put-SameBut s.slaves id r.0 in
        Ensures-if (ltb_ℤ r.2 (pos 0)) (Ensures-ok g) (
          skips id (h.before_reply id) s s' r.1 req (answer_sent line lim h ctx id req rc)
            (quiet.0 id) (answer_sent-frame ctx id req rc s s' r.1 g))

  same : (id : ℤ) (m : Slaves) → SameBut id m m
  same id m j ne = refl

  addressed-frame :
      (ctx : ℕ) (id : ℤ) (req : Message) (rc : ℤ) (s : Server) (w : W)
      → Ensures (Frames id s) (addressed line lim h ctx id req rc s w)
  unfolding addressed
  addressed-frame ctx id req rc s w =
      let r = h.set_slave w ctx id in
      Ensures-if (eqb_ℤ r.1 (pos 0)) (answer-frame ctx id req rc s r.0)
        (Ensures-ok (same id s.slaves))

  unaddressed-frame :
      (id : ℤ) (req : Message) (rc : ℤ) (s : Server) (w : W)
      → Ensures (Frames id s) (unaddressed line lim h req rc s w)
  unfolding unaddressed
  unaddressed-frame id req rc s w = rw quiet.2 (Ensures-ok (same id s.slaves))

  serve-frame :
      (rc : ℤ) (s : Server) (w : W) (id : ℕ)
      → IsFor s id
      → Ensures (Frames (pos id) s) (serve line lim h rc s w)
  unfolding serve
  serve-frame rc s w id (req, e, to) = rw e (
      rw to (
        Ensures-elim (find s.slaves (pos id)) (unaddressed-frame (pos id) req rc s w) (λ slv f.
          Ensures-deref s.device.backend λ b g. addressed-frame b.ctx (pos id) req rc s w)))

  recover-frame : (s : Server) (w : W) (id : ℤ) → Ensures (Frames id s) (recover line lim h s w)
  unfolding recover
  recover-frame s w id =
      Ensures-if s.device.recovery_link
        (Ensures-bind (close_server line s w) (close_server-Ensures line s w) λ c k.
          Ensures-bind (open_server line lim c.0 c.1) (open_server-Ensures line lim c.0 c.1 room)
            λ o j.
              Ensures-if o.2
                (Ensures-ok (λ i ne.
                  ap (λ (t : Server). find t.slaves i) j.2
                  ∙ ap (λ (t : Server). find t.slaves i) k.1))
                Ensures-thrown)
        (Ensures-ok (same id s.slaves))

  -- Where the user has set no function, `task` changes no slave but the one that the request is for,
  -- whatever was received.
  pub task-frame :
      (s : Server) (w : W) (rc : ℤ) (id : ℕ)
      → IsFor s id
      → Ensures (Frames (pos id) s) (task line lim h s w rc)
  unfolding task
  task-frame s w rc id f =
      Ensures-if (eqb_ℤ rc minus_one && not (h.bad_crc w)) (recover-frame s w (pos id)) (
        Ensures-if (ltb_ℤ (pos 0) rc) (serve-frame rc s w id f)
          (Ensures-ok (same (pos id) s.slaves)))

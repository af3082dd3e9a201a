-- ===== src/Server/Answer.antt =====
-- A request for a slave that has no open device: its tables answer.
use libmodbuspp.Base.{
  ℕ, ◌<◌, ◌≡◌, refl, ap, ◌∙◌, arith, true, false, not, ◌&&◌, Bool-cases, inl, inr, Option, none,
  some, find, find-put_self, find-put_ne, ℤ, pos, eqb_ℤ, ltb_ℤ, deref, ◌>>=◌, if◌then◌else◌,
  Outcome, ok,
}
use libmodbuspp.Message.{Message, slave}
use libmodbuspp.Message.Create.{Limits}
use libmodbuspp.Slave.{Client, minus_one, is_open}
use libmodbuspp.Device.{Line, Backend}
use libmodbuspp.BufferedSlave.Tables.{BufferedSlave, Mapping}
use libmodbuspp.BufferedSlave.Routing.{read_from_device, write_to_device}
use libmodbuspp.Server.State.{Server}
use libmodbuspp.Server.Task.{
  Host, stored, answer_written, answer_sent, answer, addressed, unaddressed, serve, task,
}
use libmodbuspp.Server.Frame.{SameBut, IsQuiet}

-- The request of `s` is for its slave `slv`, which has no open device.
pub record IsLocal (s : Server) (b : Backend) (req : Message) (id : ℕ) (slv : BufferedSlave)
    : Type 0 where
  pub lined : s.device.backend ≡ some b
  pub requested : s.request ≡ some req
  pub numbered : slave req ≡ ok id
  pub found : find s.slaves (pos id) ≡ some slv
  pub closed : is_open slv.base ≡ false

module _ {W : Type 0} (c : Client W) (slv : BufferedSlave) (w : W) (req : Message)
    (closed : is_open slv.base ≡ false) where
  read_from_device-closed : read_from_device c slv w (some req) ≡ ok (slv, w, pos 0)
  unfolding read_from_device
  read_from_device-closed = rw closed refl

  write_to_device-closed : write_to_device c slv w (some req) ≡ ok (slv, w, pos 0)
  unfolding write_to_device
  write_to_device-closed = rw closed refl

module _ {W : Type 0} (line : Line W) (lim : Limits) (h : Host W) (quiet : IsQuiet h) where
  module _ (b : Backend) (req : Message) (id : ℕ) (slv : BufferedSlave) (rc : ℤ)
      (closed : is_open slv.base ≡ false) where
    abbrev pub sent : W → W × Mapping × ℤ
    sent w = h.reply w b.ctx req.adu rc slv.map

    -- The slave with the tables that `modbus_reply` leaves.
    abbrev pub replied : W → BufferedSlave
    replied w = record slv { map = (sent w).1 }

    -- A run that ends well, with the slave changed so and no other one.
    abbrev pub Ends : Server → W → Outcome (Server × W × ℤ) → Type 0
    Ends s w m =
        (s' : Server) × (m ≡ ok (s', (sent w).0, pos 0))
        × (find s'.slaves (pos id) ≡ some (replied w))
        × SameBut (pos id) s.slaves s'.slaves

    answer_written-Ends :
        (s t : Server) (w : W)
        → find t.slaves (pos id) ≡ some (replied w)
        → SameBut (pos id) s.slaves t.slaves
        → Ends s w (answer_written line lim h (pos id) req t (sent w).0)
    unfolding answer_written
    answer_written-Ends s t w f same = (
      stored line lim h t (pos id) (replied w),
      rw (f, write_to_device-closed (h.client (pos id)) (replied w) (sent w).0 req closed) refl,
      find-put_self t.slaves (pos id) (replied w),
      λ j ne. find-put_ne t.slaves (pos id) j (replied w) ne ∙ same j ne,
    )

    answer_sent-Ends :
        (s t : Server) (w : W)
        → find t.slaves (pos id) ≡ some slv
        → SameBut (pos id) s.slaves t.slaves
        → Ends s w (answer_sent line lim h b.ctx (pos id) req rc t w)
    unfolding answer_sent
    answer_sent-Ends s t w f same =
        let t' = stored line lim h t (pos id) (replied w) in
        let f' = find-put_self t.slaves (pos id) (replied w) in
        let same' : SameBut (pos id) s.slaves t'.slaves =
          λ j ne. find-put_ne t.slaves (pos id) j (replied w) ne ∙ same j ne in
        elim (Bool-cases (ltb_ℤ (sent w).2 (pos 0))) [
          | inl e ↦ (t', rw (f, e) refl, f', same')
          | inr e ↦
              let (u, run, g, k) = answer_written-Ends s t' w f' same' in
              (u, rw (f, e, quiet.1 (pos id)) run, g, k)
        ]

    answer-Ends :
        (s : Server) (w : W)
        → find s.slaves (pos id) ≡ some slv
        → Ends s w (answer line lim h b.ctx (pos id) req rc s w)
    unfolding answer
    answer-Ends s w f =
        let t = stored line lim h s (pos id) slv in
        let (u, run, g, k) =
          answer_sent-Ends s t w (find-put_self s.slaves (pos id) slv)
            (λ j ne. find-put_ne s.slaves (pos id) j slv ne) in
        (
          u,
          rw (f, read_from_device-closed (h.client (pos id)) slv w req closed, quiet.0 (pos id))
              run,
          g,
          k,
        )

  serve-answer :
      (s : Server) (w : W) (b : Backend) (req : Message) (id : ℕ) (slv : BufferedSlave) (rc : ℤ)
      → IsLocal s b req id slv
      → (h.set_slave w b.ctx (pos id)).1 ≡ pos 0
      → serve line lim h rc s w
        ≡ answer line lim h b.ctx (pos id) req rc s (h.set_slave w b.ctx (pos id)).0
  unfolding serve addressed
  serve-answer s w b req id slv rc v e =
      let w' = (h.set_slave w b.ctx (pos id)).0 in
      let on_backend : Message → ℕ → Option Backend → Outcome (Server × W × ℤ) =
        λ q i o. deref o >>= λ c. addressed line lim h c.ctx (pos i) q rc s w in
      let on_slave : Message → ℕ → Option BufferedSlave → Outcome (Server × W × ℤ) = λ q i o.
        elim o [
          | none ↦ unaddressed line lim h q rc s w
          | some t ↦ on_backend q i s.device.backend
        ] in
      let on_number : Message → Outcome ℕ → Outcome (Server × W × ℤ) =
        λ q m. m >>= λ i. on_slave q i (find s.slaves (pos i)) in
      let on_request : Option Message → Outcome (Server × W × ℤ) =
        λ o. deref o >>= λ q. on_number q (slave q) in
      let on_answer : ℤ → Outcome (Server × W × ℤ) = λ t.
        if eqb_ℤ t (pos 0)
        then answer line lim h b.ctx (pos id) req rc s w'
        else ok (s, w', pos 0) in
      ap on_request v.requested
      ∙ ap (on_number req) v.numbered
      ∙ ap (on_slave req id) v.found
      ∙ ap (on_backend req id) v.lined
      ∙ ap on_answer e

  -- A request that libmodbus lets the server answer, for a slave without an open device, and with no
  -- function of the user: `task` returns 0, the state outside is that of `modbus_reply` on the
  -- tables of the slave, the slave has the tables that this call leaves, and the other slaves are as
  -- they were.
  pub task-answers :
      (s : Server) (w : W) (b : Backend) (req : Message) (id : ℕ) (slv : BufferedSlave) (n : ℕ)
      (v : IsLocal s b req id slv)
      → 0 < n
      → (h.set_slave w b.ctx (pos id)).1 ≡ pos 0
      → Ends b req id slv
          (pos n)
          v.closed
          s
          (h.set_slave w b.ctx (pos id)).0
          (task line lim h s w (pos n))
  unfolding task
  task-answers s w b req id slv n v l e =
      let arrived : ltb_ℤ (pos 0) (pos n) ≡ true = ground arith in
      let fine : eqb_ℤ (pos n) minus_one && not (h.bad_crc w) ≡ false = ground arith in
      let (u, run, g, k) =
        answer-Ends b req id slv (pos n) v.closed s (h.set_slave w b.ctx (pos id)).0 v.found in
      (u, rw (fine, arrived) (serve-answer s w b req id slv (pos n) v e ∙ run), g, k)

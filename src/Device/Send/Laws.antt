-- ===== src/Device/Send/Laws.antt =====
-- How often a message is sent, and what is made of the count of its bytes.
use libmodbuspp.Base.{
  ℕ, zero, suc, ◌<◌, ◌≡◌, ◌≢◌, ◌⊎◌, inl, inr, Bool, Bool-cases, if◌then◌else◌, refl, ◌∙◌, ap, arith,
  true, false, not, ◌&&◌, some, ℤ, pos, ltb_ℤ, eqb_ℤ, ok,
}
use libmodbuspp.Message.{Message, size}
use libmodbuspp.Slave.{minus_one}
use libmodbuspp.NetLayer.{Layer}
use libmodbuspp.Device.{Line, Backend, Device, private_open, private_close}
use libmodbuspp.Device.Send.{Port, layer_send, again, relink, send_loop, judged, send}

module _ {W : Type 0} (line : Line W) (port : Port W) (d : Device) (b : Backend) (layer : Layer)
    (m : Message) where
  abbrev sent : W → W × ℤ
  sent w = layer_send line port layer b.ctx m w

  -- After so many attempts that failed, and the recoveries between them, the next one ends in `r`.
  data Answers : W → ℕ → W × ℤ → Type 0 where
    now : {w : W} → again line port d b layer m (sent w).1 ≡ false → Answers w 0 (sent w)
    later :
        {w w' : W} {k : ℕ} {r : W × ℤ}
        → again line port d b layer m (sent w).1 ≡ true
        → relink line port d b layer m (sent w).0 ≡ ok w'
        → Answers w' k r
        → Answers w (suc k) r

  send_loop-Answers :
      (rounds : ℕ) {w : W} {k : ℕ} {r : W × ℤ}
      → Answers w k r
      → k < rounds
      → send_loop line port d b layer m rounds w ≡ ok (some r)
  unfolding send_loop
  send_loop-Answers zero a l = absurd (omega arith)
  send_loop-Answers (suc rounds) (now e) l = rw e refl
  send_loop-Answers (suc rounds) (later e q a) l =
      rw (e, q) (send_loop-Answers rounds a (omega arith))

  send-Answers :
      (rounds k : ℕ) (w : W) (r : W × ℤ)
      → Answers w k r
      → k < rounds
      → send line port d b layer m rounds w ≡ ok (some (judged line port d b layer m r))
  unfolding send
  send-Answers rounds k w r a l = rw (send_loop-Answers rounds a l) refl

  -- The state in which the link stands again after a failure: after a pause of the response timeout
  -- it is closed and connected anew if it is broken, or else its input is flushed. `errno` is kept.
  abbrev pub recovered : W → W
  recovered w = port.with_errno w (
      if port.broken w
      then (line.connect (port.pause (line.close w b.ctx) b.ctx) b.ctx).0
      else port.flush (port.pause w b.ctx) b.ctx)

  -- The state after `i` attempts and recoveries.
  unfoldable pub after_attempts : ℕ → W → W
  after_attempts zero w = w
  after_attempts (suc i) w = after_attempts i (recovered (sent w).0)

  -- The result `x` that the caller gets of the result `r` of an attempt: a count that is not the
  -- size of the PDU is an error.
  abbrev pub Reported : W × ℤ → W × ℤ → Type 0
  Reported r x =
      ((x ≡ r) × ((ltb_ℤ (pos 0) r.1 ≡ false) ⊎ (r.1 ≡ pos (size m))))
      ⊎ ((x ≡ (port.set_bad_data r.0, minus_one))
          × (ltb_ℤ (pos 0) r.1 ≡ true)
          × (r.1 ≢ pos (size m)))

  relink-recovered : (w : W) → relink line port d b layer m w ≡ ok (recovered w)
  unfolding relink private_close private_open
  relink-recovered w = either (port.broken w)
    where
      anew : W
      anew = (line.connect (port.pause (line.close w b.ctx) b.ctx) b.ctx).0

      flushed : W
      flushed = port.flush (port.pause w b.ctx) b.ctx

      either :
          (broken : Bool)
          → (if broken then ok (port.with_errno w anew) else ok (port.with_errno w flushed))
            ≡ ok (port.with_errno w (if broken then anew else flushed))
      either true = refl
      either false = refl

  judged-Reported : (r : W × ℤ) → Reported r (judged line port d b layer m r)
  judged-Reported r = elim (Bool-cases (ltb_ℤ (pos 0) r.1)) [
    | inl counted ↦ elim (Bool-cases (eqb_ℤ r.1 (pos (size m)))) [
      | inl same ↦ inl (rw (counted, same) refl, inr (ground arith))
      | inr other ↦ inr (rw (counted, other) refl, counted, λ e. absurd (ground arith))
    ]
    | inr none_sent ↦ inl (rw none_sent refl, inl none_sent)
  ]

  retried-Answers :
      (k : ℕ) (w : W)
      → d.recovery_link && not m.is_response ≡ true
      → ((i : ℕ) → i < k → (sent (after_attempts i w)).1 ≡ minus_one)
      → (sent (after_attempts k w)).1 ≢ minus_one
      → Answers w k (sent (after_attempts k w))
  unfolding again after_attempts
  retried-Answers zero w retry fails ends = now (ground arith)
  retried-Answers (suc k) w retry fails ends =
      let failed : (sent w).1 ≡ minus_one = fails 0 (omega arith) in
      later (rw failed (ground arith)) (relink-recovered (sent w).0)
        (retried-Answers k (recovered (sent w).0) retry (λ i l. fails (suc i) (omega arith)) ends)

  -- A request on a device that recovers its link is sent again, the link made anew each time, as
  -- long as its layer returns -1; any other message is sent once. If the layer returns -1 for the
  -- first `k` attempts and something else for the next, the call returns with any bound above `k`
  -- on the rounds, with what the last attempt returned, or with an error if that is a count that is
  -- not the size of the PDU.
  pub send-returns :
      (rounds k : ℕ) (w : W)
      → ((i : ℕ) → i < k → (sent (after_attempts i w)).1 ≡ minus_one)
      → (sent (after_attempts k w)).1 ≢ minus_one
      → k < rounds
      → let retries = (if d.recovery_link && not m.is_response then k else 0) in
        (x : W × ℤ) × (send line port d b layer m rounds w ≡ ok (some x))
        × Reported (sent (after_attempts retries w)) x
  unfolding again after_attempts
  send-returns rounds k w fails ends l = elim (Bool-cases (d.recovery_link && not m.is_response)) [
    | inl retry ↦ rw retry (
        let r = sent (after_attempts k w) in
        (
          judged line port d b layer m r,
          send-Answers rounds k w r (retried-Answers k w retry fails ends) l,
          judged-Reported r,
        ))
    | inr once ↦ rw once (
        (
          judged line port d b layer m (sent w),
          send-Answers rounds 0 w (sent w) (now (ground arith)) (omega arith),
          judged-Reported (sent w),
        ))
  ]

  -- A message is sent once, whatever comes of it, where the link is not recovered or the message is
  -- a response.
  pub send-once :
      (rounds : ℕ) (w : W)
      → (d.recovery_link && not m.is_response) ≡ false
      → send line port d b layer m (suc rounds) w
        ≡ ok (some (judged line port d b layer m (sent w)))
  unfolding again
  send-once rounds w e = send-Answers (suc rounds) 0 w (sent w) (now (ground arith)) (omega arith)

  -- A message that the layer sends as a whole, its header included, is reported as an error.
  pub send-whole :
      (rounds : ℕ) (w : W)
      → 0 < m.pdu_begin
      → m.pdu_begin < m.adu_size
      → (sent w).1 ≡ pos m.adu_size
      → send line port d b layer m (suc rounds) w
        ≡ ok (some (port.set_bad_data (sent w).0, minus_one))
  unfolding again size
  send-whole rounds w h l e =
      let other : ltb_ℤ (pos 0) (pos m.adu_size) && not (eqb_ℤ (pos m.adu_size) (pos (size m)))
          ≡ true =
        ground arith in
      let failed : judged line port d b layer m (sent w)
          ≡ (port.set_bad_data (sent w).0, minus_one) =
        rw (e, other) refl in
      send-Answers (suc rounds) 0 w (sent w) (now (rw e (ground arith))) (omega arith)
      ∙ ap (λ r. ok (some r)) failed

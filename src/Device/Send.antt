-- ===== src/Device/Send.antt =====
-- `Device::sendRawMessage` of src/device.cpp, over `sendRawMessage` of the layers, for a device that
-- is no server: a server opens and closes its line in its own way.
pub mod Laws
use libmodbuspp.Base.{
  ℕ, zero, suc, ◌+◌, ◌*◌, Bool, true, false, not, ◌&&◌, Option, none, some, List, take,
  if◌then◌else◌, ℤ, pos, ltb_ℤ, eqb_ℤ, Outcome, ok, thrown, ◌>>=◌, runtime_error,
}
use libmodbuspp.Message.{Message, size}
use libmodbuspp.Slave.{minus_one}
use libmodbuspp.NetLayer.{Layer, tcp_layer, rtu_layer, base_layer, layer_prepare}
use libmodbuspp.Device.{Line, Backend, Device, private_open, private_close}

-- `enum SerialRts`
pub data SerialRts : Type 0 where
  rts_none rts_down rts_up : SerialRts

-- What is asked of libmodbus and of the system to send bytes: `pause` waits for the response
-- timeout, `broken` is whether `errno` is EBADF, ECONNRESET or EPIPE, and `with_errno` takes `errno`
-- from another state. The `rts` of a port is not there where the system has no such signal.
pub record Port (W : Type 0) : Type 0 where
  pub send_tcp : W → ℕ → List ℕ → W × ℤ
  pub write : W → ℕ → List ℕ → W × ℤ
  pub rts : W → ℕ → SerialRts
  pub set_rts : W → ℕ → SerialRts → W
  pub rts_delay : W → ℕ → ℕ
  pub one_byte_time : ℕ
  pub sleep : W → ℕ → W
  pub pause : W → ℕ → W
  pub flush : W → ℕ → W
  pub broken : W → Bool
  pub with_errno : W → W → W
  pub set_einval : W → W
  pub set_bad_data : W → W

abbrev pub complement : SerialRts → SerialRts
complement r = elim r [ rts_down ↦ rts_up | _ ↦ rts_down ]

module _ {W : Type 0} (line : Line W) (port : Port W) where
  abbrev pub bytes_of : Message → List ℕ
  bytes_of m = take m.adu_size m.adu

  -- `RtuLayer::sendRawMessage`
  unfoldable pub rtu_send : ℕ → Message → W → W × ℤ
  rtu_send ctx m w =
      let r = complement (port.rts w ctx) in
      let raised = port.sleep (port.set_rts w ctx r) (port.rts_delay w ctx) in
      let (sent, n) = port.write raised ctx (bytes_of m) in
      let rested = port.sleep sent (port.one_byte_time * m.adu_size + port.rts_delay sent ctx) in
      elim (port.rts w ctx) [
        | rts_none ↦ port.write w ctx (bytes_of m)
        | other ↦ (port.set_rts rested ctx (complement r), n)
      ]

  unfoldable pub layer_send : Layer → ℕ → Message → W → W × ℤ
  layer_send (tcp_layer tid) ctx m w = port.send_tcp w ctx (bytes_of m)
  layer_send rtu_layer ctx m w = rtu_send ctx m w
  layer_send base_layer ctx m w = (w, minus_one)

  module _ (d : Device) (b : Backend) (layer : Layer) (m : Message) where
    -- `rc == -1`, where the link is to be recovered.
    unfoldable pub again : ℤ → Bool
    again rc = d.recovery_link && eqb_ℤ rc minus_one && not m.is_response

    unfoldable pub relink : W → Outcome W
    relink w =
        let reopened : Outcome W =
          (private_close line (some b) w >>= λ w'.
          private_open line (some b) (port.pause w' b.ctx) >>= λ r. ok (port.with_errno w r.0)) in
        if port.broken w
        then reopened
        else ok (port.with_errno w (port.flush (port.pause w b.ctx) b.ctx))

    -- The `do` loop, with so many rounds at most.
    unfoldable pub send_loop : ℕ → W → Outcome (Option (W × ℤ))
    send_loop zero w = ok none
    send_loop (suc rounds) w =
        let sent = layer_send layer b.ctx m w in
        let rest = (relink sent.0 >>= λ w'. send_loop rounds w') in
        if again sent.1 then rest else ok (some sent)

    abbrev pub judged : W × ℤ → W × ℤ
    judged r =
        if ltb_ℤ (pos 0) r.1 && not (eqb_ℤ r.1 (pos (size m)))
        then (port.set_bad_data r.0, minus_one)
        else r

    unfoldable pub send : ℕ → W → Outcome (Option (W × ℤ))
    send rounds w =
        send_loop rounds w >>= λ o. elim o [ none ↦ ok none | some r ↦ ok (some (judged r)) ]

  -- Returns the layer and the message too, which `prepareToSend` changes.
  unfoldable pub send_raw_message :
      ℕ → Device → Layer → Message → Bool → W → Outcome (Layer × Message × Option (W × ℤ))
  send_raw_message rounds d layer m prepare_before w =
      let sending : Backend → Layer → Message → Outcome (Layer × Message × Option (W × ℤ)) =
        λ b layer m. send d b layer m rounds w >>= λ r. ok (layer, m, r) in
      let prepared : Backend → Outcome (Layer × Message × Option (W × ℤ)) = λ b.
        layer_prepare layer m >>= λ p.
        if p.0 then sending b p.1 p.2 else ok (p.1, p.2, some (port.set_einval w, minus_one)) in
      elim d.backend [
        | none ↦ thrown runtime_error
        | some b ↦ if prepare_before then prepared b else sending b layer m
      ]

-- ===== src/Tests/Sending.antt =====
-- Messages that are sent over a serial line.
use libmodbuspp.Base.{
  ℕ, ℤ, zero, suc, ◌<◌, ◌≢◌, ◌+◌, ◌≡◌, refl, arith, Bool, true, false, some, length, ◌==◌,
  if◌then◌else◌, pos, ok,
}
use libmodbuspp.Message.{rtu}
use libmodbuspp.Slave.{minus_one}
use libmodbuspp.NetLayer.{rtu_layer}
use libmodbuspp.Device.{Backend, Device}
use libmodbuspp.Device.Send.{Port, rts_none, layer_send, rtu_send, judged, send}
use libmodbuspp.Device.Send.Laws.{after_attempts, Reported, send-returns, send-once, send-whole}
use libmodbuspp.Tests.Lifecycle.{one_answers}
use libmodbuspp.Tests.Lines.{line}

-- The first write fails; the state outside counts the calls.
abbrev port : Port ℕ
port = record {
  send_tcp = λ w ctx bytes. (w + 1, minus_one);
  write = λ w ctx bytes. (w + 1, if w == 0 then minus_one else pos (length bytes));
  rts = λ w ctx. rts_none;
  set_rts = λ w ctx r. w + 1;
  rts_delay = λ w ctx. 0;
  one_byte_time = 0;
  sleep = λ w n. w + 1;
  pause = λ w ctx. w + 1;
  flush = λ w ctx. w + 1;
  broken = λ w. false;
  with_errno = λ old w. w;
  set_einval = λ w. w + 1;
  set_bad_data = λ w. w + 1;
}

abbrev backend : Backend
backend = record { net = rtu; ctx = 1 }

abbrev device : Bool → Device
device recovery = record {
  opened = true;
  backend = some backend;
  recovery_link = recovery;
  debug = false;
}

-- The first attempt fails, and the second one sends eight bytes, which is not the size of the PDU.
first_fails :
    (i : ℕ)
    → i < 1
    → (layer_send one_answers port rtu_layer 1 line
        (after_attempts one_answers port (device true) backend rtu_layer line i 0)).1
      ≡ minus_one
unfolding layer_send rtu_send after_attempts
first_fails zero l = refl
first_fails (suc i) l = absurd (omega (arith, l))

second_counts :
    (layer_send one_answers port rtu_layer 1 line
      (after_attempts one_answers port (device true) backend rtu_layer line 1 0)).1
    ≢ minus_one
unfolding layer_send rtu_send after_attempts
second_counts = λ e. absurd (ground (arith, e))

send-returns_example :
    (x : ℕ × ℤ) × (send one_answers port (device true) backend rtu_layer line 2 0 ≡ ok (some x))
    × Reported one_answers port
        (device true)
        backend
        rtu_layer
        line
        (layer_send one_answers port rtu_layer 1 line
          (after_attempts one_answers port (device true) backend rtu_layer line 1 0))
        x
send-returns_example =
    send-returns one_answers port (device true) backend rtu_layer line 2 1 0 first_fails
      second_counts (omega arith)

send-once_example :
    send one_answers port (device false) backend rtu_layer line 1 0
    ≡ ok (
        some (
          judged one_answers port
            (device false)
            backend
            rtu_layer
            line
            (layer_send one_answers port rtu_layer 1 line 0)))
send-once_example = send-once one_answers port (device false) backend rtu_layer line 0 0 refl

-- All eight bytes of the frame are sent.
send-whole_example :
    send one_answers port (device false) backend rtu_layer line 1 5 ≡ ok (some (7, minus_one))
unfolding layer_send rtu_send
send-whole_example =
    send-whole one_answers port (device false) backend rtu_layer line 0 5 (omega arith)
      (omega arith) refl

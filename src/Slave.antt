-- ===== src/Slave.antt =====
-- The `Slave` class of src/slave.cpp: a slave of a device, reached through libmodbus.
use libmodbuspp.Base.{
  ℕ, Bool, false, ◌&&◌, Option, none, some, List, [], if◌then◌else◌, ℤ, pos, negsuc, ◌-ℤ◌, ◌+ℤ◌,
  leb_ℤ, eqb_ℤ, Outcome, ok, thrown, runtime_error,
}

-- What an access of libmodbus returns: its `int`, and what it has stored from `dest` on.
pub record Reply : Type 0 where
  pub rc : ℤ
  pub stored : List ℕ

-- The calls of libmodbus over the context of a device. `W` is the state outside the library: the
-- context, the line, the slaves on it and `errno`. Addresses are those of the PDU.
pub record Client (W : Type 0) : Type 0 where
  pub set_einval : W → W
  pub set_slave : W → ℤ → W × ℤ
  pub read_bits : W → ℤ → ℤ → W × Reply
  pub read_input_bits : W → ℤ → ℤ → W × Reply
  pub read_registers : W → ℤ → ℤ → W × Reply
  pub read_input_registers : W → ℤ → ℤ → W × Reply
  pub write_bit : W → ℤ → ℕ → W × ℤ
  pub write_bits : W → ℤ → ℤ → List ℕ → W × ℤ
  pub write_register : W → ℤ → ℕ → W × ℤ
  pub write_registers : W → ℤ → ℤ → List ℕ → W × ℤ
  pub write_and_read_registers : W → ℤ → ℤ → List ℕ → ℤ → ℤ → W × Reply
  pub report_slave_id : W → ℕ → W × Reply
  pub max_pdu_length : ℕ

-- What a slave asks of its device.
pub record DeviceView : Type 0 where
  pub valid : Bool
  pub opened : Bool

-- `Slave::Private`
pub record Slave : Type 0 where
  pub pdu_addressing : Bool
  pub id : ℤ
  pub dev : Option DeviceView

-- The `-1` of an error.
abbrev pub minus_one : ℤ
minus_one = negsuc 0

unfoldable pub create : ℤ → Option DeviceView → Slave
create s d = record { pdu_addressing = false; id = s; dev = d }

abbrev pub set_device : Slave → Option DeviceView → Slave
set_device s device = record s { dev = device }

abbrev pub set_number : Slave → ℤ → Slave
set_number s addr = record s { id = addr }

abbrev pub set_pdu_addressing : Slave → Bool → Slave
set_pdu_addressing s on = record s { pdu_addressing = on }

unfoldable pub is_valid : Slave → Bool
is_valid s = elim s.dev [ none ↦ false | some d ↦ d.valid && leb_ℤ (pos 0) s.id ]

unfoldable pub is_open : Slave → Bool
is_open s = elim s.dev [ none ↦ false | some d ↦ is_valid s && d.opened ]

unfoldable pub pdu_address : Slave → ℤ → ℤ
pdu_address s addr = addr -ℤ (if s.pdu_addressing then pos 0 else pos 1)

unfoldable pub data_address : Slave → ℤ → ℤ
data_address s addr = addr +ℤ (if s.pdu_addressing then pos 0 else pos 1)

module _ {W : Type 0} (c : Client W) (s : Slave) where
  -- The frame of every access: `isValid`, then `modbus_set_slave`, then the call.
  unfoldable pub access : {A : Type 0} → W → A → (W → W × A) → Outcome (W × A)
  access w failed call =
      if is_valid s
      then (let (w', rc) = c.set_slave w s.id in
          if eqb_ℤ rc (pos 0) then ok (call w') else ok (w', failed))
      else thrown runtime_error

  abbrev pub no_reply : Reply
  no_reply = record { rc = minus_one; stored = [] }

  unfoldable pub read_coils : W → ℤ → ℤ → Outcome (W × Reply)
  read_coils w addr nb = access w no_reply (λ w. c.read_bits w (pdu_address s addr) nb)

  unfoldable pub read_discrete_inputs : W → ℤ → ℤ → Outcome (W × Reply)
  read_discrete_inputs w addr nb =
      access w no_reply (λ w. c.read_input_bits w (pdu_address s addr) nb)

  unfoldable pub read_registers : W → ℤ → ℤ → Outcome (W × Reply)
  read_registers w addr nb = access w no_reply (λ w. c.read_registers w (pdu_address s addr) nb)

  unfoldable pub read_input_registers : W → ℤ → ℤ → Outcome (W × Reply)
  read_input_registers w addr nb =
      access w no_reply (λ w. c.read_input_registers w (pdu_address s addr) nb)

  unfoldable pub write_coils : W → ℤ → List ℕ → ℤ → Outcome (W × ℤ)
  write_coils w addr src nb = access w minus_one (λ w. c.write_bits w (pdu_address s addr) nb src)

  unfoldable pub write_coil : W → ℤ → Bool → Outcome (W × ℤ)
  write_coil w addr value =
      access w minus_one (λ w. c.write_bit w (pdu_address s addr) (if value then 1 else 0))

  unfoldable pub write_registers : W → ℤ → List ℕ → ℤ → Outcome (W × ℤ)
  write_registers w addr src nb =
      access w minus_one (λ w. c.write_registers w (pdu_address s addr) nb src)

  unfoldable pub write_register : W → ℤ → ℕ → Outcome (W × ℤ)
  write_register w addr value =
      access w minus_one (λ w. c.write_register w (pdu_address s addr) value)

  unfoldable pub write_read_registers : W → ℤ → List ℕ → ℤ → ℤ → ℤ → Outcome (W × Reply)
  write_read_registers w waddr src wnb raddr rnb =
      access w no_reply
        (λ w. c.write_and_read_registers w (pdu_address s waddr) wnb src (pdu_address s raddr) rnb)

  unfoldable pub report_slave_id : W → ℕ → Outcome (W × Reply)
  report_slave_id w max_dest = access w no_reply (λ w. c.report_slave_id w max_dest)

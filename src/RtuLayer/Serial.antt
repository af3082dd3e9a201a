-- ===== src/RtuLayer/Serial.antt =====
-- The mode of a serial line and its RTS signal: the accessors of src/rtulayer.cpp.
use libmodbuspp.Base.{ℕ, Bool, not, if◌then◌else◌, ℤ, eqb_ℤ}
use libmodbuspp.Slave.{minus_one}

-- `enum SerialMode` and `enum SerialRts` of include/modbuspp/global.h
pub data SerialMode : Type 0 where
  rs232 rs485 unknown_mode : SerialMode

pub data SerialRts : Type 0 where
  rts_none rts_up rts_down unknown_rts : SerialRts

-- The calls of libmodbus on the context of a serial line, and its constants.
pub record SerialPort (W : Type 0) : Type 0 where
  pub rs232_number : ℤ
  pub rs485_number : ℤ
  pub rts_none_number : ℤ
  pub rts_up_number : ℤ
  pub rts_down_number : ℤ
  pub get_serial_mode : W → ℕ → ℤ
  pub set_serial_mode : W → ℕ → ℤ → W × ℤ
  pub get_rts : W → ℕ → ℤ
  pub set_rts : W → ℕ → ℤ → W × ℤ
  pub get_rts_delay : W → ℕ → ℤ
  pub set_rts_delay : W → ℕ → ℤ → W × ℤ

-- The numbers of the enumerators; `Unknown` is -1.
abbrev mode_number : {W : Type 0} → SerialPort W → SerialMode → ℤ
mode_number port rs232 = port.rs232_number
mode_number port rs485 = port.rs485_number
mode_number port unknown_mode = minus_one

abbrev rts_number : {W : Type 0} → SerialPort W → SerialRts → ℤ
rts_number port rts_none = port.rts_none_number
rts_number port rts_up = port.rts_up_number
rts_number port rts_down = port.rts_down_number
rts_number port unknown_rts = minus_one

module _ {W : Type 0} (port : SerialPort W) (ctx : ℕ) (w : W) where
  -- The number of the mode that is returned.
  unfoldable pub serial_mode : ℤ
  serial_mode =
      let m = port.get_serial_mode w ctx in
      if not (eqb_ℤ m minus_one) then m else mode_number port unknown_mode

  unfoldable pub rts : ℤ
  rts =
      let r = port.get_rts w ctx in
      if not (eqb_ℤ r minus_one) then r else rts_number port unknown_rts

  unfoldable pub rts_delay : ℤ
  rts_delay = port.get_rts_delay w ctx

  abbrev accepted : W × ℤ → W × Bool
  accepted r = (r.0, not (eqb_ℤ r.1 minus_one))

  unfoldable pub set_serial_mode : SerialMode → W × Bool
  set_serial_mode mode = accepted (port.set_serial_mode w ctx (mode_number port mode))

  unfoldable pub set_rts : SerialRts → W × Bool
  set_rts r = accepted (port.set_rts w ctx (rts_number port r))

  unfoldable pub set_rts_delay : ℤ → W × Bool
  set_rts_delay delay = accepted (port.set_rts_delay w ctx delay)

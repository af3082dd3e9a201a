-- ===== src/Json/Devices.antt =====
-- `setConfig` of a device in src/device.cpp, with what masters and servers make of it.
pub mod Laws
use libmodbuspp.Base.{
  ℕ, Bool, true, false, Option, none, some, List, [], ◌∷◌, if◌then◌else◌, ℤ, Outcome, ok, ◌>>=◌,
}
use libmodbuspp.Message.{Net, rtu, tcp, no_net}
use libmodbuspp.Timeout.{Timeout}
use libmodbuspp.RtuLayer.Serial.{
  SerialMode, SerialRts, SerialPort, set_serial_mode, set_rts, set_rts_delay,
}
use libmodbuspp.Device.{Device, Backend, is_valid, set_recovery_link}
use libmodbuspp.Device.Layers.{Maker, make_backend}
use libmodbuspp.Device.Settings.{Context, rtu_of, set_debug, set_response_timeout, set_byte_timeout}
use libmodbuspp.Json.{mandatory}

-- The members of `rtu`.
pub record RtuConfig : Type 0 where
  pub mode : Option SerialMode
  pub rts : Option SerialRts
  pub rts_delay : Option ℤ

-- The members of a device. A timeout is what `Timeout` makes of the number of milliseconds.
pub record DeviceConfig : Type 0 where
  pub connection : Option (List ℕ)
  pub settings : Option (List ℕ)
  pub mode : Option Net
  pub recovery_link : Option Bool
  pub debug : Option Bool
  pub response_timeout : Option Timeout
  pub byte_timeout : Option Timeout
  pub rtu_config : Option RtuConfig

-- What the classes over `Device` define in their own way: the virtual functions that a
-- configuration calls, on a state that has a device.
pub record Kind (S W : Type 0) : Type 0 where
  pub device : S → Device
  pub with_device : S → Device → S
  pub private_set_backend : Net → List ℕ → List ℕ → S → W → Outcome (S × W)
  pub recover : S → W → Bool → Outcome (S × W)

-- A step for a member, where it is there.
abbrev pub where_given : {A B : Type 0} → Option A → (B → A → Outcome B) → B → Outcome B
where_given none step b = ok b
where_given (some a) step b = step b a

module _ {S W : Type 0} (kind : Kind S W) (c : Context W) (port : SerialPort W) where
  -- `Device::setBackend`
  unfoldable pub set_backend_of : S → W → Net → List ℕ → List ℕ → Outcome (S × W × Bool)
  set_backend_of s w n connection settings =
      let made =
        (kind.private_set_backend n connection settings s w >>= λ r. ok (r.0, r.1, true)) in
      if is_valid (kind.device s) then ok (s, w, false) else made

  abbrev pub debugged : S × W → Bool → Outcome (S × W)
  debugged x b = set_debug c (kind.device x.0) x.1 b >>= λ r. ok (kind.with_device x.0 r.0, r.1)

  abbrev pub answers_within : S × W → Timeout → Outcome (S × W)
  answers_within x t = set_response_timeout c (kind.device x.0) x.1 t >>= λ r. ok (x.0, r.0)

  abbrev pub bytes_within : S × W → Timeout → Outcome (S × W)
  bytes_within x t = set_byte_timeout c (kind.device x.0) x.1 t >>= λ r. ok (x.0, r.0)

  -- `dev->rtu ()` with a setter of the serial line.
  abbrev on_line : {A : Type 0} → (ℕ → W → A → W × Bool) → S × W → A → Outcome (S × W)
  on_line call x a = rtu_of (kind.device x.0) >>= λ b. ok (x.0, (call b.ctx x.1 a).0)

  unfoldable pub set_rtu_config : S × W → RtuConfig → Outcome (S × W)
  set_rtu_config x config =
      where_given config.mode (on_line (set_serial_mode port)) x
      >>= where_given config.rts (on_line (set_rts port))
      >>= where_given config.rts_delay (on_line (set_rts_delay port))

  -- `if (config.contains ("rtu") && net == Rtu)`
  abbrev pub serial_members : Net → Option RtuConfig → S × W → Outcome (S × W)
  serial_members rtu config x = where_given config set_rtu_config x
  serial_members tcp config x = ok x
  serial_members no_net config x = ok x

  -- The members after the backend, in the order of the source.
  unfoldable pub set_members : Net → DeviceConfig → S × W → Outcome (S × W)
  set_members n config x =
      where_given config.recovery_link (λ x b. kind.recover x.0 x.1 b) x
      >>= where_given config.debug debugged
      >>= where_given config.response_timeout answers_within
      >>= where_given config.byte_timeout bytes_within
      >>= serial_members n config.rtu_config

  unfoldable pub set_config_device : S → W → DeviceConfig → Outcome (S × W)
  set_config_device s w config = mandatory config.connection >>= λ connection.
      mandatory config.settings >>= λ settings. mandatory config.mode >>= λ n.
      set_backend_of s w n connection settings >>= λ r.
      if r.2 then set_members n config (r.0, r.1) else ok (r.0, r.1)

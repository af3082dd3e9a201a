-- ===== src/Device.antt =====
-- The state of a device, and its opening and closing: src/device.cpp.
pub mod Send
pub mod Settings
pub mod Layers
use libmodbuspp.Base.{
  ℕ, Bool, true, false, Option, none, some, if◌then◌else◌, ℤ, pos, eqb_ℤ, Outcome, ok, fault, ◌>>=◌,
  not,
}
use libmodbuspp.Message.{Net, rtu, tcp, no_net}
use libmodbuspp.Slave.{minus_one}

-- The calls of libmodbus and of the system that open and close a line. A number stands for a
-- `modbus_t *`.
pub record Line (W : Type 0) : Type 0 where
  pub connect : W → ℕ → W × ℤ
  pub close : W → ℕ → W
  pub listen : W → ℕ → W × ℤ
  pub close_socket : W → ℤ → W

-- `NetLayer::Private`, as far as it is needed here.
pub record Backend : Type 0 where
  pub net : Net
  pub ctx : ℕ

-- `Device::Private`
pub record Device : Type 0 where
  pub opened : Bool
  pub backend : Option Backend
  pub recovery_link : Bool
  pub debug : Bool

abbrev pub set_recovery_link : Device → Bool → Device
set_recovery_link d on = record d { recovery_link = on }

unfoldable pub is_valid : Device → Bool
is_valid d = elim d.backend [ none ↦ false | some b ↦ true ]

module _ {W : Type 0} (line : Line W) where
  -- `Device::Private::open` and `Device::Private::close`, on the context of the backend.
  unfoldable pub private_open : Option Backend → W → Outcome (W × Bool)
  private_open none w = fault
  private_open (some b) w = let (w', rc) = line.connect w b.ctx in ok (w', eqb_ℤ rc (pos 0))

  unfoldable pub private_close : Option Backend → W → Outcome W
  private_close none w = fault
  private_close (some b) w = ok (line.close w b.ctx)

  -- `Device::open` and `Device::close`.
  unfoldable pub open_device : Device → W → Outcome (Device × W × Bool)
  open_device d w =
      let opening : Outcome (Device × W × Bool) =
        (private_open d.backend w >>= λ r. ok (record d { opened = r.1 }, r.0, r.1)) in
      if is_valid d
      then (if d.opened then ok (d, w, d.opened) else opening)
      else ok (d, w, d.opened)

  unfoldable pub close_device : Device → W → Outcome (Device × W)
  close_device d w =
      let closing : Outcome (Device × W) =
        (private_close d.backend w >>= λ w'. ok (record d { opened = false }, w')) in
      if d.opened then closing else ok (d, w)

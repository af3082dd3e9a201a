-- ===== src/Device/Layers.antt =====
-- How a device gets its backend: `setBackend` of src/device.cpp, src/master.cpp and src/server.cpp, and
-- the constructors of `RtuLayer::Private` and `TcpLayer::Private`.
use libmodbuspp.Base.{
  ℕ, Bool, true, false, Option, none, some, List, [], ◌∷◌, ◌==◌, if◌then◌else◌, ℤ, Outcome, ok,
  thrown, ◌>>=◌, invalid_argument,
}
use libmodbuspp.Message.{Net, rtu, tcp, no_net}
use libmodbuspp.RtuLayer.Settings.{baud, parity, stop}
use libmodbuspp.Device.{Backend, Device, is_valid}

-- `modbus_new_rtu`, with 8 bits for a character, and `modbus_new_tcp_pi`; a call that fails returns
-- no context. `stoi` has no value where it throws.
pub record Maker (W : Type 0) : Type 0 where
  pub new_rtu : W → List ℕ → ℤ → ℕ → ℕ → W × Option ℕ
  pub new_tcp : W → Option (List ℕ) → List ℕ → W × Option ℕ
  pub stoi : List ℕ → Option ℤ

-- The text "*".
abbrev star : List ℕ → Bool
star [] = false
star (c ∷ []) = c == b'*'
star (c ∷ d ∷ text) = false

module _ {W : Type 0} (make : Maker W) where
  abbrev pub layer_of : Net → W × Option ℕ → Outcome (W × Backend)
  layer_of n r = elim r.1 [
    | none ↦ thrown invalid_argument
    | some ctx ↦ ok (r.0, record { net = n; ctx = ctx })
  ]

  unfoldable pub new_rtu_layer : W → List ℕ → List ℕ → Outcome (W × Backend)
  new_rtu_layer w port settings =
      layer_of rtu (make.new_rtu w port (baud make.stoi settings) (parity settings) (stop settings))

  unfoldable pub new_tcp_layer : W → List ℕ → List ℕ → Outcome (W × Backend)
  new_tcp_layer w host service =
      layer_of tcp (make.new_tcp w (if star host then none else some host) service)

  -- `Device::Private::setBackend`
  unfoldable pub make_backend : Net → List ℕ → List ℕ → W → Outcome (W × Backend)
  make_backend n connection settings w = elim n [
    | tcp ↦ new_tcp_layer w connection settings
    | rtu ↦ new_rtu_layer w connection settings
    | no_net ↦ thrown invalid_argument
  ]

  -- `Device::setBackend`: a backend is set once.
  unfoldable pub set_backend : Device → Net → List ℕ → List ℕ → W → Outcome (Device × W × Bool)
  set_backend d n connection settings w =
      let made : Outcome (Device × W × Bool) =
        (make_backend n connection settings w >>= λ r.
        ok (record d { backend = some r.1 }, r.0, true)) in
      if is_valid d then ok (d, w, false) else made

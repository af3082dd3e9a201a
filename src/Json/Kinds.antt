-- ===== src/Json/Kinds.antt =====
-- What `Device`, `Master` and `Server` make of the virtual functions that a configuration calls:
-- `setBackend` of src/device.cpp, src/master.cpp and src/server.cpp, and `setRecoveryLink`.
use libmodbuspp.Base.{ℕ, Bool, some, List, if◌then◌else◌, Outcome, ok, ◌>>=◌}
use libmodbuspp.Message.{Net, rtu}
use libmodbuspp.Device.{Device, set_recovery_link}
use libmodbuspp.Device.Layers.{Maker, make_backend}
use libmodbuspp.Master.{Master, MasterHost, set_master_backend, recover_link}
use libmodbuspp.Server.State.{Server}
use libmodbuspp.Json.Devices.{Kind}

module _ {W : Type 0} (make : Maker W) where
  -- `Device::Private::setBackend` on the device of a state.
  abbrev pub backed : Net → List ℕ → List ℕ → Device → W → Outcome (Device × W × ℕ)
  backed n connection settings d w = make_backend make n connection settings w >>= λ r.
      ok (record d { backend = some r.1 }, r.0, r.1.ctx)

  unfoldable pub device_kind : Kind Device W
  device_kind = record {
    device = λ d. d;
    with_device = λ d d'. d';
    private_set_backend =
        λ n connection settings d w. backed n connection settings d w >>= λ r. ok (r.0, r.1);
    recover = λ d w b. ok (set_recovery_link d b, w);
  }

  unfoldable pub master_kind : MasterHost W → ℕ → ℕ → Kind Master W
  master_kind h broadcast tcp_slave = record {
    device = λ m. m.device;
    with_device = λ m d. record m { device = d };
    private_set_backend = set_master_backend h make broadcast tcp_slave;
    recover = λ m w b. recover_link h m w b >>= λ r. ok (r.0, r.1);
  }

  -- `modbus_rtu_set_recv_filter`, where libmodbus has it, lets a serial line hear all slaves.
  abbrev unfiltered : Bool → (W → ℕ → W) → Net → W → ℕ → W
  unfiltered multi_slaves set_recv_filter n w ctx = elim n [
    | rtu ↦ if multi_slaves then set_recv_filter w ctx else w
    | _ ↦ w
  ]

  -- `Server::Private::setBackend`
  unfoldable pub set_server_backend :
      Bool → (W → ℕ → W) → Net → List ℕ → List ℕ → Server → W → Outcome (Server × W)
  set_server_backend multi_slaves set_recv_filter n connection settings s w =
      backed n connection settings s.device w >>= λ r.
      ok (record s { device = r.0 }, unfiltered multi_slaves set_recv_filter n r.1 r.2)

  unfoldable pub server_kind : Bool → (W → ℕ → W) → Kind Server W
  server_kind multi_slaves set_recv_filter = record {
    device = λ s. s.device;
    with_device = λ s d. record s { device = d };
    private_set_backend = set_server_backend multi_slaves set_recv_filter;
    recover = λ s w b. ok (record s { device = set_recovery_link s.device b }, w);
  }

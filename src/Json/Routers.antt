-- ===== src/Json/Routers.antt =====
-- `setConfig` of a server and of a master as a whole, and of a router: src/server.cpp, src/master.cpp
-- and src/router.cpp.
use libmodbuspp.Base.{ℕ, some, Option, List, [], ◌∷◌, find, put, Outcome, ok, ◌>>=◌, deref}
use libmodbuspp.Message.Create.{Limits}
use libmodbuspp.Device.{Line, Device}
use libmodbuspp.Device.Settings.{Context}
use libmodbuspp.RtuLayer.Serial.{SerialPort}
use libmodbuspp.BufferedSlave.Allocate.{Allocator}
use libmodbuspp.Server.State.{Server}
use libmodbuspp.Server.Task.{Host}
use libmodbuspp.Server.Control
use libmodbuspp.Master.{Master, MasterHost, view}
use libmodbuspp.Router.{Router}
use libmodbuspp.Router.Names.{add_master, place_master, new_device}
use libmodbuspp.Json.{Reader, SlaveConfig, mandatory}
use libmodbuspp.Json.Blocks.{set_config}
use libmodbuspp.Json.Devices.{DeviceConfig, Kind, set_config_device}
use libmodbuspp.Json.Slaves.{set_config_server, set_config_master}

-- A configuration with slaves, and that of a router's master, which has a name too.
pub record HostConfig (J : Type 0) : Type 0 where
  pub name : Option (List ℕ)
  pub device : DeviceConfig
  pub slaves : List (SlaveConfig J)

pub record RouterConfig (J : Type 0) : Type 0 where
  pub device : DeviceConfig
  pub masters : List (HostConfig J)

module _ {J W : Type 0} (c : Context W) (port : SerialPort W) (masters : Kind Master W)
    (h : MasterHost W) where
  unfoldable pub set_config_whole_master : Master → W → HostConfig J → Outcome (Master × W)
  set_config_whole_master m w config = set_config_device masters c port m w config.device >>= λ r.
      set_config_master h r.0 r.1 config.slaves

module _ {J W : Type 0} (json : Reader J) (al : Allocator) (line : Line W) (lim : Limits)
    (h : Host W) (c : Context W) (port : SerialPort W) (servers : Kind Server W)
    (masters : Kind Master W) where
  unfoldable pub set_config_whole_server : Server → W → HostConfig J → Outcome (Server × W)
  set_config_whole_server s w config = set_config_device servers c port s w config.device >>= λ r.
      set_config_server json al line lim h r.0 r.1 config.slaves

  -- The loop over the slaves that a master of the router reaches.
  unfoldable pub set_config_routed :
      Device → Server → W → List (SlaveConfig J) → Outcome (Server × W)
  set_config_routed d s w [] = ok (s, w)
  set_config_routed d s w (config ∷ configs) = mandatory config.id >>= λ id.
      Control.add_slave line lim h s w id (some (view d)) >>= λ a.
      deref (find a.0.slaves id) >>= λ slv. set_config json al (h.client id) slv a.1 config >>= λ r.
      set_config_routed d (record a.0 { slaves = put a.0.slaves id r.0 }) r.1 configs

  -- The loop over the masters. The slaves of a master itself are not part of a router's state.
  unfoldable pub set_config_masters : Router → W → List (HostConfig J) → Outcome (Router × W)
  set_config_masters r w [] = ok (r, w)
  set_config_masters r w (config ∷ configs) = mandatory config.name >>= λ name.
      add_master r name >>= λ r'.
      set_config_device masters c port (record { device = new_device; slaves = [] }) w config.device
      >>= λ m.
          let r'' = record r' { masters = place_master r'.masters name m.0.device } in
          set_config_routed m.0.device r''.server m.1 config.slaves >>= λ s.
          set_config_masters (record r'' { server = s.0 }) s.1 configs

  unfoldable pub set_config_router : Router → W → RouterConfig J → Outcome (Router × W)
  set_config_router r w config = set_config_device servers c port r.server w config.device >>= λ s.
      set_config_masters (record r { server = s.0 }) s.1 config.masters

-- ===== src/Json/Slaves.antt =====
-- The loops over `slaves` of `setConfig` in src/server.cpp and src/master.cpp.
use libmodbuspp.Base.{none, List, [], ◌∷◌, find, put, Outcome, ok, ◌>>=◌, deref}
use libmodbuspp.Message.Create.{Limits}
use libmodbuspp.Device.{Line}
use libmodbuspp.BufferedSlave.Allocate.{Allocator}
use libmodbuspp.Server.State.{Server}
use libmodbuspp.Server.Task.{Host}
use libmodbuspp.Server.Control
use libmodbuspp.Master.{Master, MasterHost}
use libmodbuspp.Master
use libmodbuspp.Json.{Reader, SlaveConfig, mandatory}
use libmodbuspp.Json.Blocks.{set_config, set_config_slave}

module _ {J W : Type 0} (json : Reader J) (al : Allocator) (line : Line W) (lim : Limits)
    (h : Host W) where
  unfoldable pub set_config_server : Server → W → List (SlaveConfig J) → Outcome (Server × W)
  set_config_server s w [] = ok (s, w)
  set_config_server s w (config ∷ configs) = mandatory config.id >>= λ id.
      Control.add_slave line lim h s w id none >>= λ a. deref (find a.0.slaves id) >>= λ slv.
      set_config json al (h.client id) slv a.1 config >>= λ r.
      set_config_server (record a.0 { slaves = put a.0.slaves id r.0 }) r.1 configs

module _ {J W : Type 0} (h : MasterHost W) where
  unfoldable pub set_config_master : Master → W → List (SlaveConfig J) → Outcome (Master × W)
  set_config_master m w [] = ok (m, w)
  set_config_master m w (config ∷ configs) = mandatory config.id >>= λ id.
      Master.add_slave h m w id >>= λ a. deref (find a.0.slaves id) >>= λ slv.
      set_config_slave slv config >>= λ slv'.
      set_config_master (record a.0 { slaves = put a.0.slaves id slv' }) a.1 configs

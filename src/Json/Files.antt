-- ===== src/Json/Files.antt =====
-- The configuration from a file: `setConfig` and `setConfigFromFile` of src/device.cpp.
use libmodbuspp.Base.{
  Bool, true, false, Option, none, some, List, [], ◌∷◌, if◌then◌else◌, Outcome, ok, thrown, ◌>>=◌,
  system_error, ℕ,
}
use libmodbuspp.Device.{is_valid}
use libmodbuspp.Json.Devices.{Kind}

-- Files that are read as documents, and the members of a document by their keys.
pub record Files (J : Type 0) : Type 0 where
  pub document : List ℕ → Option J
  pub member : J → List ℕ → Option J

module _ {J S W : Type 0} (files : Files J) (kind : Kind S W)
    (configure : J → S → W → Outcome (S × W)) where
  -- The member of that key, or the whole document where the key is empty or not there.
  unfoldable pub chosen : J → List ℕ → J
  chosen j [] = j
  chosen j (k ∷ key) = elim (files.member j (k ∷ key)) [ none ↦ j | some config ↦ config ]

  -- `configure` stands for the virtual function `setConfig`.
  unfoldable pub set_config_from_file : List ℕ → List ℕ → S → W → Outcome (S × W)
  set_config_from_file jsonfile key s w = elim (files.document jsonfile) [
    | none ↦ thrown system_error
    | some j ↦ configure (chosen j key) s w
  ]

  -- `Device::setConfig`: only a device without a backend takes a configuration.
  unfoldable pub set_config : List ℕ → List ℕ → S → W → Outcome (S × W × Bool)
  set_config jsonfile key s w =
      let read : Outcome (S × W × Bool) =
        (set_config_from_file jsonfile key s w >>= λ r. ok (r.0, r.1, true)) in
      if is_valid (kind.device s) then ok (s, w, false) else read

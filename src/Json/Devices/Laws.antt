-- ===== src/Json/Devices/Laws.antt =====
-- What the configuration of a device leaves.
use libmodbuspp.Base.{
  ℕ, ◌≡◌, refl, sym, ap, ◌∙◌, arith, Bool, true, false, Option, none, some, List, if◌then◌else◌,
  pos, eqb_ℤ, Outcome, ok, ◌>>=◌, Ensures, Ensures-ok, Ensures-thrown, Ensures-fault, Ensures-test,
  Ensures-bind, Ensures-then, Ensures-map, Ensures-elim,
}
use libmodbuspp.Message.{Net, rtu, tcp, no_net}
use libmodbuspp.RtuLayer.Serial.{SerialPort, set_serial_mode, set_rts, set_rts_delay}
use libmodbuspp.Device.{Device, Backend, is_valid}
use libmodbuspp.Device.Layers.{Maker, make_backend, layer_of, new_rtu_layer, new_tcp_layer}
use libmodbuspp.Device.Settings.{Context, rtu_of, set_debug, set_response_timeout, set_byte_timeout}
use libmodbuspp.Json.{mandatory, get_or_default}
use libmodbuspp.Json.Devices.{
  DeviceConfig, RtuConfig, Kind, where_given, debugged, answers_within, bytes_within,
  serial_members, set_backend_of, set_rtu_config, set_members, set_config_device,
}
use libmodbuspp.Json.Kinds.{device_kind}

-- The backend of the device, and whether it is open, are those of `d`.
pub record Keeps (d : Device) (r : Bool) (x : Device) : Type 0 where
  pub same_backend : x.backend ≡ d.backend
  pub same_opened : x.opened ≡ d.opened
  pub recovers : x.recovery_link ≡ r

where_given-Ensures :
    {A B : Type 0} {P : B → Type 0} (o : Option A) (step : B → A → Outcome B) (b : B)
    → P b
    → ((b : B) (a : A) → P b → Ensures P (step b a))
    → Ensures P (where_given o step b)
where_given-Ensures none step b h k = Ensures-ok h
where_given-Ensures (some a) step b h k = k b a h

module _ {W : Type 0} (make : Maker W) (c : Context W) (port : SerialPort W) (d : Device)
    (r : Bool) where
  abbrev kind : Kind Device W
  kind = device_kind make

  abbrev Kept : Device × W → Type 0
  Kept x = Keeps d r x.0

  debug-Kept :
      (x : Device) (b changed : Bool)
      → Keeps d r x
      → Keeps d r (if changed then record x { debug = b } else x)
  debug-Kept x b true h = record {
    same_backend = h.same_backend;
    same_opened = h.same_opened;
    recovers = h.recovers;
  }
  debug-Kept x b false h = h

  set_debug-Kept :
      (x : Device × W) (b : Bool)
      → Kept x
      → Ensures (λ (s : Device × W × Bool). Keeps d r s.0) (set_debug c x.0 x.1 b)
  unfolding set_debug
  set_debug-Kept x b h =
      Ensures-elim x.0.backend Ensures-thrown
        λ k _. Ensures-ok (debug-Kept x.0 b (eqb_ℤ ((c.set_debug x.1 k.ctx b).1) (pos 0)) h)

  on_line-Kept :
      {A : Type 0} (call : ℕ → W → A → W × Bool) (x : Device × W) (a : A)
      → Kept x
      → Ensures Kept (rtu_of x.0 >>= λ b. ok (x.0, (call b.ctx x.1 a).0))
  on_line-Kept call x a h = Ensures-then (rtu_of x.0) λ b. Ensures-ok h

  set_rtu_config-Kept :
      (x : Device × W) (config : RtuConfig)
      → Kept x
      → Ensures Kept (set_rtu_config kind c port x config)
  unfolding set_rtu_config device_kind
  set_rtu_config-Kept x config h =
      Ensures-bind _
        (Ensures-bind _
          (where_given-Ensures config.mode _ x h (on_line-Kept (set_serial_mode port)))
          λ y k. where_given-Ensures config.rts _ y k (on_line-Kept (set_rts port)))
        λ z l. where_given-Ensures config.rts_delay _ z l (on_line-Kept (set_rts_delay port))

  serial_members-Kept :
      (n : Net) (config : Option RtuConfig) (x : Device × W)
      → Kept x
      → Ensures Kept (serial_members kind c port n config x)
  serial_members-Kept rtu config x h = where_given-Ensures config _ x h set_rtu_config-Kept
  serial_members-Kept tcp config x h = Ensures-ok h
  serial_members-Kept no_net config x h = Ensures-ok h

  -- The members after `recovery-link`.
  rest-Kept :
      (n : Net) (config : DeviceConfig) (m : Outcome (Device × W))
      → Ensures Kept m
      → Ensures Kept (
          m
          >>= where_given config.debug (debugged kind c port)
          >>= where_given config.response_timeout (answers_within kind c port)
          >>= where_given config.byte_timeout (bytes_within kind c port)
          >>= serial_members kind c port n config.rtu_config)
  unfolding device_kind
  rest-Kept n config m h =
      Ensures-bind _
        (Ensures-bind _
          (Ensures-bind _
            (Ensures-bind m h λ x k. where_given-Ensures config.debug _ x k λ y b k.
              Ensures-bind (set_debug c y.0 y.1 b) (set_debug-Kept y b k) λ s l. Ensures-ok l)
            λ y k.
              where_given-Ensures config.response_timeout _ y k
                λ z t l. Ensures-then (set_response_timeout c z.0 z.1 t) λ s. Ensures-ok l)
          λ y k.
            where_given-Ensures config.byte_timeout _ y k
              λ z t l. Ensures-then (set_byte_timeout c z.0 z.1 t) λ s. Ensures-ok l)
        λ y k. serial_members-Kept n config.rtu_config y k

module _ {W : Type 0} (make : Maker W) where
  layer_of-net : (n : Net) (r : W × Option ℕ) → Ensures (λ x. x.1.net ≡ n) (layer_of make n r)
  layer_of-net n r = Ensures-elim r.1 Ensures-thrown λ ctx _. Ensures-ok refl

  make_backend-net :
      (n : Net) (connection settings : List ℕ) (w : W)
      → Ensures (λ (x : W × Backend). x.1.net ≡ n) (make_backend make n connection settings w)
  unfolding make_backend new_rtu_layer new_tcp_layer
  make_backend-net rtu connection settings w = layer_of-net rtu _
  make_backend-net tcp connection settings w = layer_of-net tcp _
  make_backend-net no_net connection settings w = Ensures-thrown

no_backend : (d : Device) → d.backend ≡ none → is_valid d ≡ false
unfolding is_valid
no_backend d e = ap (λ o. elim o [ none ↦ false | some b ↦ true ]) e

-- A device that was configured: it has a backend for the net of the configuration.
pub record Configured (d : Device) (config : DeviceConfig) (x : Device) : Type 0 where
  pub made : Backend
  pub has_backend : x.backend ≡ some made
  pub net_given : config.mode ≡ some (made.net)
  pub same_opened : x.opened ≡ d.opened
  pub recovers : x.recovery_link ≡ get_or_default config.recovery_link d.recovery_link

Ensures-mandatory : {A : Type 0} (o : Option A) → Ensures (λ a. o ≡ some a) (mandatory o)
Ensures-mandatory none = Ensures-fault
Ensures-mandatory (some a) = Ensures-ok refl

module _ {W : Type 0} (make : Maker W) (c : Context W) (port : SerialPort W) where
  -- What `setBackend` makes of a device without a backend.
  abbrev Started : Device → Net → Device × W × Bool → Type 0
  Started d n s = (b : Backend) × (s.2 ≡ true) × (s.0 ≡ record d { backend = some b }) × (b.net ≡ n)

  abbrev Made : Device → Net → Device → Type 0
  Made d n x = (b : Backend) × (x ≡ record d { backend = some b }) × (b.net ≡ n)

  set_backend_of-Started :
      (d : Device) (w : W) (n : Net) (connection settings : List ℕ)
      → d.backend ≡ none
      → Ensures (Started d n) (set_backend_of (device_kind make) c port d w n connection settings)
  unfolding set_backend_of device_kind
  set_backend_of-Started d w n connection settings e = rw (no_backend d e) (
      Ensures-bind {P = λ (r : Device × W). Made d n r.0} _
        (Ensures-bind {P = λ (r : Device × W × ℕ). Made d n r.0} _
          (Ensures-bind (make_backend make n connection settings w)
            (make_backend-net make n connection settings w) λ r same. Ensures-ok (r.1, refl, same))
          λ r made. Ensures-ok made)
        λ r (b, is_d, same). Ensures-ok (b, refl, is_d, same))

  recovered :
      (o : Option Bool) (d x : Device) (w : W)
      → x.backend ≡ d.backend
      → x.opened ≡ d.opened
      → x.recovery_link ≡ d.recovery_link
      → Ensures
          (Kept make c port d (get_or_default o d.recovery_link))
          (where_given o (λ y b. (device_kind make).recover y.0 y.1 b) (x, w))
  unfolding device_kind
  recovered none d x w e f g = Ensures-ok record { same_backend = e; same_opened = f; recovers = g }
  recovered (some b) d x w e f g =
      Ensures-ok record { same_backend = e; same_opened = f; recovers = refl }

  -- A device without a backend whose configuration returns has a backend for the net of the
  -- configuration, is open if it was, and recovers its link as the configuration says, or as it did.
  pub set_config_device-Configured :
      (d : Device) (w : W) (config : DeviceConfig)
      → d.backend ≡ none
      → Ensures
          (λ (x : Device × W). Configured d config x.0)
          (set_config_device (device_kind make) c port d w config)
  unfolding set_config_device set_members
  set_config_device-Configured d w config none_yet =
      Ensures-bind _ (Ensures-mandatory config.connection) λ connection _.
        Ensures-bind _ (Ensures-mandatory config.settings) λ settings _.
          Ensures-bind _ (Ensures-mandatory config.mode) λ n is_n.
            Ensures-bind _ (set_backend_of-Started d w n connection settings none_yet)
              λ s (b, made, is_d, same).
                let d' : Device = record d { backend = some b } in
                Ensures-test s.2
                  (λ _.
                    Ensures-map
                      (rest-Kept make c port d'
                        (get_or_default config.recovery_link d.recovery_link) n config _
                        (recovered config.recovery_link d' s.0 s.1 (ap (λ x. x.backend) is_d)
                          (ap (λ x. x.opened) is_d) (ap (λ x. x.recovery_link) is_d)))
                      λ x kept. record {
                        made = b;
                        has_backend = kept.same_backend;
                        net_given = is_n ∙ ap some (sym same);
                        same_opened = kept.same_opened;
                        recovers = kept.recovers;
                      })
                  λ not_made. absurd (ground arith)

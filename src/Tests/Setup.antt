-- ===== src/Tests/Setup.antt =====
-- Messages and their copies, and devices and routers that are set up.
use libmodbuspp.Base.{
  ℕ, ◌+◌, ◌≡◌, refl, ap, arith, true, false, some, none, [], ◌∷◌, pos, length, ok, Ensures,
}
use libmodbuspp.Message.{Message, rtu, set_word}
use libmodbuspp.Message.Create.{Limits, create_function, create}
use libmodbuspp.Message.Bytes.Setters.{IsMessage}
use libmodbuspp.Message.Bytes.{Built, created_function, word_set, Built-IsMessage}
use libmodbuspp.Message.Objects.{Object, copy, assign, equal, different, copy-equal}
use libmodbuspp.RtuLayer.Serial.{SerialPort, rs485, rts_up, set_rts, set_serial_mode}
use libmodbuspp.Device.{Device, is_valid}
use libmodbuspp.Device.Layers.{Maker, make_backend, new_rtu_layer}
use libmodbuspp.Device.Settings.{Context, rtu_of, set_response_timeout}
use libmodbuspp.Router.{Router}
use libmodbuspp.Router.Names.{less, add_master, master_at, new_device}
use libmodbuspp.Router.Sorted.{IsSorted, add_master-adds}
use libmodbuspp.Json.Devices.{
  DeviceConfig, set_config_device, set_backend_of, set_members, set_rtu_config,
}
use libmodbuspp.Json.Devices.Laws.{Configured, set_config_device-Configured}
use libmodbuspp.Json.Kinds.{device_kind}
use libmodbuspp.Tests.Lifecycle.{limits, router}
use Prim.{tt}

-- A message for a small serial line.
abbrev small : Limits
small = record limits { max_adu_length = λ n. 5 }

abbrev asked : Message
asked = record {
  net = rtu;
  pdu_begin = 1;
  adu_size = 4;
  max_adu_length = 5;
  is_response = false;
  transaction_id = 1;
  adu = 0 ∷ 3 ∷ 0x12 ∷ 0x34 ∷ 0 ∷ [];
}

asked-Built : Built small false asked
unfolding create_function create set_word
asked-Built =
    word_set false (record asked { adu_size = 0; adu = 0 ∷ 3 ∷ 0 ∷ 0 ∷ 0 ∷ [] }) asked (pos 1)
      0x1234
      (created_function rtu 3 (record asked { adu_size = 0; adu = 0 ∷ 3 ∷ 0 ∷ 0 ∷ 0 ∷ [] })
        (omega arith) refl)
      refl

Built-IsMessage_example : IsMessage false asked
Built-IsMessage_example = Built-IsMessage small false asked (omega arith) asked-Built

abbrev original : Object
original = record { at = 100; message = asked }

copy-equal_example :
    (equal (copy 200 original) original ≡ false)
    × (different (assign 200 (record original { at = 300 }) original) original ≡ true)
    × ((copy 200 original).message ≡ asked)
    × ((assign 200 (record original { at = 300 }) original).message ≡ asked)
copy-equal_example =
    copy-equal (record original { at = 300 }) original 200 (λ e. absurd (omega (arith, e)))

add_master-adds_example :
    (r' : Router) × (add_master router (b'a' ∷ b'a' ∷ []) ≡ ok r')
    × IsSorted r'.masters
    × (master_at r' (b'a' ∷ b'a' ∷ []) ≡ ok new_device)
    × (master_at r' (b'b' ∷ []) ≡ master_at router (b'b' ∷ []))
unfolding less
add_master-adds_example =
    add_master-adds router (b'a' ∷ b'a' ∷ []) (b'b' ∷ []) (λ e. absurd (omega (arith, ap length e)))
      refl ((refl, tt), (tt, tt))

-- A system in which every call succeeds.
abbrev maker : Maker ℕ
maker = record {
  new_rtu = λ w port baud parity stop. (w + 1, some 7);
  new_tcp = λ w host service. (w + 1, some 8);
  stoi = λ text. some (pos 9600);
}

abbrev context : Context ℕ
context = record {
  flush = λ w ctx. (w + 1, pos 0);
  get_socket = λ w ctx. pos 3;
  set_response_timeout = λ w ctx t. (w + 1, pos 0);
  get_response_timeout = λ w ctx. (record { sec = 1; usec = 0 }, pos 0);
  set_byte_timeout = λ w ctx t. (w + 1, pos 0);
  get_byte_timeout = λ w ctx. (record { sec = 1; usec = 0 }, pos 0);
  set_indication_timeout = λ w ctx t. (w + 1, pos 0);
  get_indication_timeout = λ w ctx. (record { sec = 1; usec = 0 }, pos 0);
  set_debug = λ w ctx on. (w + 1, pos 0);
}

abbrev serial : SerialPort ℕ
serial = record {
  rs232_number = pos 0;
  rs485_number = pos 1;
  rts_none_number = pos 0;
  rts_up_number = pos 1;
  rts_down_number = pos 2;
  get_serial_mode = λ w ctx. pos 0;
  set_serial_mode = λ w ctx m. (w + 1, pos 0);
  get_rts = λ w ctx. pos 0;
  set_rts = λ w ctx r. (w + 1, pos 0);
  get_rts_delay = λ w ctx. pos 0;
  set_rts_delay = λ w ctx r. (w + 1, pos 0);
}

abbrev config : DeviceConfig
config = record {
  connection = some (b'/' ∷ b't' ∷ []);
  settings = some (b'9' ∷ b'E' ∷ b'1' ∷ []);
  mode = some rtu;
  recovery_link = some true;
  debug = none;
  response_timeout = some (record { sec = 0; usec = 500000 });
  byte_timeout = none;
  rtu_config = some (record { mode = some rs485; rts = some rts_up; rts_delay = none });
}

-- The example returns, after five calls of libmodbus.
config-returns :
    set_config_device (device_kind maker) context serial new_device 0 config
    ≡ ok (
      record {
        opened = false;
        backend = some (record { net = rtu; ctx = 7 });
        recovery_link = true;
        debug = false;
      },
      4,
    )
unfolding set_config_device device_kind set_backend_of is_valid make_backend new_rtu_layer
    set_members set_response_timeout set_rtu_config rtu_of set_rts set_serial_mode
config-returns = refl

set_config_device-Configured_example :
    Ensures
      (λ (x : Device × ℕ). Configured new_device config x.0)
      (set_config_device (device_kind maker) context serial new_device 0 config)
set_config_device-Configured_example =
    set_config_device-Configured maker context serial new_device 0 config refl

-- ===== src/Tests/Config.antt =====
-- Reports, configurations and values of several registers.
use libmodbuspp.Base.{
  ℕ, ◌≢◌, ◌+◌, ◌*◌, ◌≡◌, refl, arith, true, false, none, some, List, [], ◌∷◌, map, length,
  replicate, ◌==◌, pos, negsuc, ok, thrown, runtime_error, invalid_argument, ◌⊎◌, fault, Ensures,
}
use libmodbuspp.Data.{Data, little_big, big_big, update_registers, assign, swap}
use libmodbuspp.Swap.{swap_bytes_in_words, hton, swap_bytes, swap_word, swap_loop, swap_at}
use libmodbuspp.Message.{rtu}
use libmodbuspp.SlaveReport.{SlaveReport, of_reply, id, status, additional, empty}
use libmodbuspp.SlaveReport.Laws.{reply_of, of_reply-carries, additional-short}
use libmodbuspp.BufferedSlave.Tables.{coil, holding_register}
use libmodbuspp.BufferedSlave.Memory.{Refines, write_table-Refines}
use libmodbuspp.BufferedSlave.RoundTrip.{address, after_write}
use libmodbuspp.BufferedSlave.Values.{write_data, read_data}
use libmodbuspp.BufferedSlave.Values.RoundTrip.{registers_of, values_of, write_data-read_data}
use libmodbuspp.Json.{Reader, int16, size_of}
use libmodbuspp.Json.Numbers.{of_string, memory, of_string-zero}
use libmodbuspp.Json.Bits.{get_bit_values}
use libmodbuspp.Json.Bits.Bounds.{IsBits, get_bit_values-IsBits}
use libmodbuspp.Device.{Backend}
use libmodbuspp.Master.{Master, MasterHost, add_slave}
use libmodbuspp.Master.Laws.{HasAdded, add_slave-slave_at}
use libmodbuspp.Tests.Tables.{nobody, silent, slave, lone-closed, five_elements, five-Holds}

-- An array of ten bytes, and the identifier 0x0201.
abbrev stale : List ℕ
stale = replicate 10 0xAA

abbrev identifier : List ℕ
identifier = 1 ∷ 2 ∷ []

of_reply-carries_example :
    (let reply = reply_of little_big identifier 0xFF (7 ∷ 8 ∷ []) in
      (r : SlaveReport) × (of_reply little_big stale (pos 5) reply ≡ ok r)
      × (id 2 r ≡ ok identifier)
      × (status 2 r ≡ ok true)
      × (additional 2 r ≡ ok (7 ∷ 8 ∷ [])))
unfolding swap swap_bytes_in_words hton swap_bytes swap_loop swap_at
of_reply-carries_example =
    of_reply-carries little_big identifier 0xFF (7 ∷ 8 ∷ []) stale (omega arith) refl (omega arith)
      (omega arith)

additional-short_example : additional 2 (empty big_big stale) ≡ fault
additional-short_example =
    additional-short 2 (empty big_big stale) (omega arith) (omega arith) (omega arith)

-- Two values of two registers, of which four places hold the registers.
abbrev value : List ℕ → Data
value bytes = record { value = bytes; endian = little_big; registers = 0 ∷ 0 ∷ [] }

abbrev sources : List Data
sources = value (1 ∷ 2 ∷ 3 ∷ 4 ∷ []) ∷ value (5 ∷ 6 ∷ 7 ∷ 8 ∷ []) ∷ []

abbrev targets : List Data
targets = value [] ∷ value [] ∷ []

-- A server whose calls all answer.
abbrev quiet : MasterHost ℕ
quiet = record {
  set_slave = λ w ctx id. (w + 1, pos 0);
  set_error_recovery = λ w ctx on. w + 1;
  send_raw_request = λ w ctx bytes. (w + 1, pos (length bytes));
  receive_confirmation = λ w ctx. (w + 1, silent);
}

abbrev master : Master
master = record {
  device = record {
    opened = false;
    backend = some (record { net = rtu; ctx = 1 });
    recovery_link = false;
    debug = false;
  };
  slaves = [];
}

-- Slave 7 is new.
add_slave-slave_at_example :
    ((master.device.backend ≡ none) × (add_slave quiet master 0 (pos 7) ≡ thrown runtime_error))
    ⊎ ((b : Backend) × (master.device.backend ≡ some b)
        × ((((quiet.set_slave 0 b.ctx (pos 7)).1 ≢ pos 0)
              × (add_slave quiet master 0 (pos 7) ≡ thrown invalid_argument))
            ⊎ (((quiet.set_slave 0 b.ctx (pos 7)).1 ≡ pos 0)
                × (m' : Master) × (add_slave quiet master 0 (pos 7)
                    ≡ ok (m', (quiet.set_slave 0 b.ctx (pos 7)).0))
                × HasAdded master (pos 7) m')))
add_slave-slave_at_example = add_slave-slave_at quiet master 0 (pos 7)

-- A number stands for itself and for its digits.
abbrev pub reader : Reader ℕ
reader = record {
  is_string = λ v. v == 255;
  text = λ v. v ∷ [];
  to_bool = λ v. none;
  to_int = λ v. some (pos v);
  number = λ v n. some (memory n v);
  stoull = λ s. ok (length s * 255, length s);
  stoll = λ s. ok (negsuc (length s), length s);
}

get_bit_values-IsBits_example :
    Ensures (IsBits (pos 9)) (get_bit_values reader (pos 9) (255 ∷ 1 ∷ 0 ∷ []))
get_bit_values-IsBits_example =
    get_bit_values-IsBits reader (pos 9) (255 ∷ 1 ∷ 0 ∷ []) (omega arith)

of_string-zero_example :
    of_string reader (value []) int16 (50 ∷ []) ≡ assign (value []) (memory (size_of int16) 0)
of_string-zero_example = of_string-zero reader (value []) int16 (50 ∷ []) (negsuc 1) 1 refl refl

write_table-Refines_example : Refines nobody slave 0 five_elements (0 ∷ 1 ∷ 1 ∷ []) 3 3 coil
write_table-Refines_example =
    write_table-Refines nobody slave 0 five_elements (0 ∷ 1 ∷ 1 ∷ []) 3 3 coil lone-closed
      five-Holds (omega arith) (omega arith)

write_data-read_data_example :
    (let regs = registers_of sources in
      let s' = after_write nobody slave 0 five_elements regs 1 4 holding_register in
      let at = address nobody slave 0 five_elements regs 1 4 holding_register in
      (write_data nobody slave 0 at sources (pos 2)
        ≡ ok (map update_registers sources, (s', 0, pos 4)))
      × ((got : List Data) × (read_data nobody s' 0 at targets (pos 2) ≡ ok ((s', 0), pos 4, got))
          × (values_of got ≡ values_of sources)))
unfolding update_registers swap swap_bytes_in_words hton swap_bytes swap_word swap_loop swap_at
write_data-read_data_example =
    write_data-read_data nobody slave 0 five_elements 1 2 little_big sources targets lone-closed
      (five-Holds, omega arith, omega arith)
      ((refl, omega arith, refl), ((refl, omega arith, refl), tt))
      ((refl, refl), ((refl, refl), tt)) (refl, omega arith)

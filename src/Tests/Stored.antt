-- ===== src/Tests/Stored.antt =====
-- Buffered slaves with and without an open device.
use libmodbuspp.Base.{
  ℕ, ◌+◌, ◌≤◌, ◌≡◌, refl, arith, true, false, inl, inr, some, [], ◌∷◌, length, length-replicate,
  Option, replicate, ℤ, pos, ◌+ℤ◌, ◌-ℤ◌, to_size, ok, Returns,
}
use libmodbuspp.Slave
use libmodbuspp.Slave.{
  Slave, Client, DeviceView, Reply, minus_one, is_open, is_valid, pdu_address, data_address,
}
use libmodbuspp.BufferedSlave.Block.Valid.{Holds}
use libmodbuspp.BufferedSlave.Allocate.{set_table, set_bit_table, resize_tab, calloc, resized}
use libmodbuspp.BufferedSlave.Tables.{
  BufferedSlave, coil, discrete_input, holding_register, create, set_block, set_coil_block,
  empty_block,
}
use libmodbuspp.BufferedSlave.Device.{
  write_read_registers, update_block_from_slave, update_slave_from_block,
}
use libmodbuspp.BufferedSlave.Access.{read_table, write_table}
use libmodbuspp.BufferedSlave.RoundTrip.{address, after_write}
use libmodbuspp.BufferedSlave.RoundTrip.Any.{write_table-read_table}
use libmodbuspp.BufferedSlave.Safe.{IsClient, AllWhole, ReadSafe}
use libmodbuspp.BufferedSlave.Reach.{Reach, here, sizes, Leaves, Reach-AllWhole, Reach-Returns}
use libmodbuspp.BufferedSlave.Through.{element, cached, Answers, read_table-caches}
use libmodbuspp.BufferedSlave.SendThrough.{write_table-sends}
use libmodbuspp.Tests.Tables.{
  nobody, lone, slave, five_elements, five-Holds, lone-closed, silent, thousand, thousand-IsMemory,
  values,
}

write_table-read_table_example :
    (let s' = after_write nobody slave 0 five_elements values 3 3 discrete_input in
      let a = address nobody slave 0 five_elements values 3 3 discrete_input in
      (write_table discrete_input nobody slave 0 a values (pos 3) ≡ ok (s', 0, pos 2))
      × (read_table discrete_input nobody s' 0 a (pos 3) ≡ ok (s', 0, pos 2, 0 ∷ 1 ∷ []))
      × Holds s'.map.input_bits (1 ∷ 0 ∷ 1 ∷ 0 ∷ 1 ∷ []))
write_table-read_table_example =
    write_table-read_table nobody slave 0 five_elements values 3 3 discrete_input lone-closed
      five-Holds (omega arith) (omega arith)

-- A device whose elements are all 4.
abbrev fours : ℤ → Reply
fours n = record { rc = n; stored = replicate (to_size n) 4 }

abbrev pub answering : Client ℕ
answering = record {
  set_einval = λ w. w + 1;
  set_slave = λ w id. (w + 1, pos 0);
  read_bits = λ w a n. (w + 1, fours n);
  read_input_bits = λ w a n. (w + 1, fours n);
  read_registers = λ w a n. (w + 1, fours n);
  read_input_registers = λ w a n. (w + 1, fours n);
  write_bit = λ w a x. (w + 1, pos 1);
  write_bits = λ w a n xs. (w + 1, n);
  write_register = λ w a x. (w + 1, pos 1);
  write_registers = λ w a n xs. (w + 1, n);
  write_and_read_registers = λ w a n xs b k. (w + 1, fours k);
  report_slave_id = λ w n. (w + 1, silent);
  max_pdu_length = 253;
}

fours-few : (m : ℕ) → length (replicate {A = ℕ} m 4) ≤ m
fours-few m = omega (arith, length-replicate {A = ℕ} m 4)

pub answering-IsClient : IsClient answering
answering-IsClient = record {
  bits_fit = λ w a m. fours-few m;
  input_bits_fit = λ w a m. fours-few m;
  registers_fit = λ w a m. fours-few m;
  input_registers_fit = λ w a m. fours-few m;
  exchanged_fit = λ w a b k xs m. (fours-few m, inr (m, refl, omega arith));
}

-- The same slave with an open device.
abbrev reached : Slave
reached = record lone { dev = some (record { valid = true; opened = true }) }

abbrev through : BufferedSlave
through = record slave { base = reached }

reached-open : is_open reached ≡ true
unfolding is_open is_valid
reached-open = refl

answers : Answers coil answering reached 0 (pos 13) 2 2 (fours (pos 2))
unfolding ◌+ℤ◌
answers = record {
  opened = reached-open;
  between = 1;
  selects = refl;
  answers = refl;
  fine = refl;
  full = refl;
}

-- Two elements of three are there, and are read again once the device is gone.
read_table-caches_example :
    (let s' = cached answering through coil five_elements 3 (4 ∷ 4 ∷ []) in
      let s'' = record s' { base = lone } in
      (read_table coil answering through 0
          (data_address reached (element answering through coil 3))
          (pos 3)
        ≡ ok (s', 2, pos 2, 4 ∷ 4 ∷ []))
      × (read_table coil answering s'' 9
            (data_address lone (element answering through coil 3))
            (pos 3)
          ≡ ok (s'', 9, pos 2, 4 ∷ 4 ∷ [])))
unfolding ◌+ℤ◌
read_table-caches_example =
    read_table-caches answering through five_elements 3 3 (omega arith) (omega arith) coil 0 2
      (fours (pos 2)) lone 9 five-Holds answers lone-closed

write_table-sends_example :
    write_table holding_register answering through 0
      (data_address reached (element answering through holding_register 3))
      values
      (pos 3)
    ≡ ok (cached answering through holding_register five_elements 3 (0 ∷ 1 ∷ []), 2, pos 2)
write_table-sends_example =
    write_table-sends answering through five_elements values 3 3 0 (omega arith) (omega arith)
      (omega arith) reached-open 1 refl holding_register five-Holds

-- The device behind a slave.
abbrev pub behind : Option DeviceView
behind = some (record { valid = true; opened = true })

-- A slave with three coils from the first address on, and an open device.
abbrev pub sized : BufferedSlave
sized = record {
  base = record { pdu_addressing = false; id = pos 5; dev = behind };
  map = record {
    bits = record { nb = pos 3; start = pos 0; tab = some (0 ∷ 0 ∷ 0 ∷ []) };
    input_bits = empty_block;
    registers = empty_block;
    input_registers = empty_block;
  };
  id_report = [];
}

pub sized-Reach : Reach thousand answering (create (pos 5) behind) sized
unfolding create set_block set_coil_block set_bit_table set_table resize_tab calloc resized
    pdu_address ◌-ℤ◌ Slave.create
sized-Reach = sizes coil (create (pos 5) behind) sized minus_one (pos 3) 3 here refl (inl refl)

Reach-AllWhole_example : AllWhole sized
Reach-AllWhole_example =
    Reach-AllWhole thousand thousand-IsMemory answering (pos 5) behind sized answering-IsClient
      sized-Reach

Reach-Returns_example :
    Returns (ReadSafe 9) (read_table coil answering sized 0 (pos 2) (pos 9))
    × Returns Leaves (write_table coil answering sized 0 (pos 2) values (pos 3))
    × Returns
        (ReadSafe 9)
        (write_read_registers answering sized 0 (pos 2) values (pos 3) (pos 1) (pos 9))
    × Returns Leaves (update_block_from_slave answering sized 0 coil)
    × Returns Leaves (update_slave_from_block answering sized 0 coil)
Reach-Returns_example =
    Reach-Returns thousand thousand-IsMemory answering (pos 5) behind sized 0 coil (pos 2) (pos 1)
      values 3 9 answering-IsClient sized-Reach (omega arith)

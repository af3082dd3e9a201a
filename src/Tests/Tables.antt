-- ===== src/Tests/Tables.antt =====
-- The tables of a buffered slave.
use libmodbuspp.Base.{
  ℕ, ◌+◌, ◌≡◌, refl, arith, false, none, some, List, [], ◌∷◌, length-replicate, replicate, leb, ℤ,
  pos, ◌+ℤ◌, Outcome, ok, fault,
}
use libmodbuspp.Slave.{Slave, Client, Reply, minus_one, is_open, pdu_address}
use libmodbuspp.BufferedSlave.Block.{Block, read_block}
use libmodbuspp.BufferedSlave.Block.Valid.{Holds}
use libmodbuspp.BufferedSlave.Allocate.{Allocator, set_bit_table, set_register_table}
use libmodbuspp.BufferedSlave.Allocate.Laws.{
  IsMemory, set_bit_table-resizes, set_register_table-overflows, set_table-refused_loses,
}
use libmodbuspp.BufferedSlave.Tables.{BufferedSlave, coil}
use libmodbuspp.BufferedSlave.Routing.{route_read}
use libmodbuspp.BufferedSlave.Routing.Laws.{route_read-ignores_start}

-- A line on which nobody answers; the state outside counts the accesses.
abbrev pub silent : Reply
silent = record { rc = minus_one; stored = [] }

abbrev pub nobody : Client ℕ
nobody = record {
  set_einval = λ w. w + 1;
  set_slave = λ w id. (w, pos 0);
  read_bits = λ w a n. (w + 1, silent);
  read_input_bits = λ w a n. (w + 1, silent);
  read_registers = λ w a n. (w + 1, silent);
  read_input_registers = λ w a n. (w + 1, silent);
  write_bit = λ w a x. (w + 1, minus_one);
  write_bits = λ w a n xs. (w + 1, minus_one);
  write_register = λ w a x. (w + 1, minus_one);
  write_registers = λ w a n xs. (w + 1, minus_one);
  write_and_read_registers = λ w a n xs b k. (w + 1, silent);
  report_slave_id = λ w n. (w + 1, silent);
  max_pdu_length = 253;
}

-- An allocator with a thousand bytes.
abbrev pub thousand : Allocator
thousand = record { grants = λ n. leb n 1000; junk = λ n. replicate n 0xAA }

pub thousand-IsMemory : IsMemory thousand
thousand-IsMemory n = length-replicate n 0xAA

-- A slave without a device.
abbrev pub lone : Slave
lone = record { pdu_addressing = false; id = pos 5; dev = none }

-- Five elements from address 10 of the PDU on.
abbrev pub five_elements : List ℕ
five_elements = 1 ∷ 0 ∷ 1 ∷ 0 ∷ 1 ∷ []

abbrev pub five : Block
five = record { nb = pos 5; start = pos 10; tab = some five_elements }

abbrev pub slave : BufferedSlave
slave = record {
  base = lone;
  map = record { bits = five; input_bits = five; registers = five; input_registers = five };
  id_report = [];
}

pub lone-closed : is_open lone ≡ false
unfolding is_open
lone-closed = refl

pub five-Holds : Holds five five_elements
five-Holds = record { held = refl; sized = refl }

abbrev pub values : List ℕ
values = 0 ∷ 1 ∷ 1 ∷ []

set_bit_table-resizes_example :
    set_bit_table thousand lone five (pos 21) (pos 7)
    ≡ ok (
      record {
        nb = pos 7;
        start = pdu_address lone (pos 21);
        tab = some (1 ∷ 0 ∷ 1 ∷ 0 ∷ 1 ∷ 0 ∷ 0 ∷ []);
      },
      pos 7,
    )
set_bit_table-resizes_example =
    set_bit_table-resizes thousand thousand-IsMemory lone five five_elements five-Holds (pos 21) 7
      (omega arith) (omega arith) refl (omega arith)

set_register_table-overflows_example :
    set_register_table thousand lone five (pos 11) (pos 7) ≡ fault
set_register_table-overflows_example =
    set_register_table-overflows thousand thousand-IsMemory lone five five_elements five-Holds
      (pos 11) 7 (omega arith) (omega arith) refl (omega arith) (omega arith)

set_table-refused_loses_example :
    (b' : Block) × (set_bit_table thousand lone five (pos 11) (pos 2000) ≡ ok (b', minus_one))
    × (read_block (λ (w : ℕ). w) b' false (λ w n. ok (w, silent)) 0 (five.start +ℤ pos 2) (pos 1)
        ≡ fault)
set_table-refused_loses_example =
    set_table-refused_loses thousand thousand-IsMemory lone five five_elements five-Holds (pos 11)
      2000 (omega arith) (omega arith) refl (omega arith) ℕ (λ w. w) 0 (λ w n. ok (w, silent)) 2 1
      (omega arith)

-- A device that answers by the address at which it is asked.
abbrev echo : ℕ → ℤ → ℤ → Outcome (ℕ × Reply)
echo w addr n = ok (w, record { rc = addr; stored = [] })

abbrev echo_write : ℕ → ℤ → List ℕ → ℤ → Outcome (ℕ × ℤ)
echo_write w addr xs n = ok (w, addr)

route_read-ignores_start_example :
    route_read nobody slave 0 coil echo 12 1
    ≡ route_read nobody slave 0 coil (λ w addr n. echo w (pos 0) n) 12 1
route_read-ignores_start_example =
    route_read-ignores_start nobody slave 0 (some five_elements) 10 4 (omega arith) coil echo 12 1
      refl

-- ===== src/Tests/Servers.antt =====
-- Servers that open, run and answer.
use libmodbuspp.Base.{
  ℕ, ◌+◌, ◌≡◌, refl, arith, true, false, inl, ◌-ℤ◌, none, some, [], ◌∷◌, pos, ok, thrown,
  future_error, Ensures,
}
use libmodbuspp.Message.{Message, rtu, byte}
use libmodbuspp.Message.Create.{create_on, fresh}
use libmodbuspp.Device.{Backend, is_valid, private_open}
use libmodbuspp.BufferedSlave.Allocate.{set_table, set_bit_table, resize_tab, calloc, resized}
use libmodbuspp.BufferedSlave.Safe.{IsClient}
use libmodbuspp.BufferedSlave.Reach as Slaves
use libmodbuspp.BufferedSlave.Tables.{BufferedSlave, coil, set_block, set_coil_block}
use libmodbuspp.BufferedSlave.Tables
use libmodbuspp.Server.State.{Server, open_by, open_server}
use libmodbuspp.Server.Task.{Host, task}
use libmodbuspp.Server.Control.{server_open, terminate, run, add_slave}
use libmodbuspp.Server.Invariant.{IsServer, IsHost}
use libmodbuspp.Server.Reach.{
  Reach, here, then, adds, uses, opens, starts, new_server, Reach-IsServer,
}
use libmodbuspp.Server.Restart.{run-terminate}
use libmodbuspp.Server.Answer.{IsLocal, Ends, task-answers}
use libmodbuspp.Slave.{is_open, minus_one, pdu_address}
use libmodbuspp.Slave
use libmodbuspp.Server.Frame.{Frames, task-frame}
use libmodbuspp.Tests.Lifecycle.{one_answers, limits}
use libmodbuspp.Tests.Tables.{nobody, silent, thousand, thousand-IsMemory}

-- All calls succeed, and the user has set no function.
abbrev host : Host ℕ
host = record {
  shutdown = λ w sock. w + 1;
  socket = λ w ctx. pos 3;
  accept = λ w ctx sock. (w + 1, sock, pos 3);
  set_slave = λ w ctx id. (w + 1, pos 0);
  receive = λ w ctx. (w + 1, silent);
  reply = λ w ctx adu rc map. (w + 1, map, rc);
  bad_crc = λ w. false;
  clear_errno = λ w. w;
  before_reply = λ id. none;
  after_reply = λ id. none;
  message = none;
  client = λ id. nobody;
}

nobody-IsClient : IsClient nobody
nobody-IsClient = record {
  bits_fit = λ w a m. omega arith;
  input_bits_fit = λ w a m. omega arith;
  registers_fit = λ w a m. omega arith;
  input_registers_fit = λ w a m. omega arith;
  exchanged_fit = λ w a b k xs m. (omega arith, inl refl);
}

host-IsHost : IsHost host
host-IsHost = record {
  before_keeps = λ id f e. absurd (ground arith);
  after_keeps = λ id f e. absurd (ground arith);
  message_keeps = λ f e. absurd (ground arith);
  clients = λ id. nobody-IsClient;
  replies_in_place = λ w ctx adu rc map t. record {
    same_nb = refl;
    same_start = refl;
    same_room = λ xs f. (xs, f, refl);
  };
}

abbrev serial : Backend
serial = record { net = rtu; ctx = 1 }

abbrev with_five : Server
with_five = record (new_server (some serial)) { slaves = (pos 5, Tables.create (pos 5) none) ∷ [] }

abbrev listening_five : Server
listening_five = record with_five {
  device = record with_five.device { opened = true };
  request = some (fresh limits rtu);
}

abbrev running_five : Server
running_five = record listening_five { daemon = true; stop_taken = true }

runs : run one_answers limits host listening_five ≡ ok (running_five, true)
unfolding run
runs = refl

-- Its slave gets three coils before the server opens.
abbrev three_coils : BufferedSlave
three_coils = record (Tables.create (pos 5) none) {
  map = record (Tables.create (pos 5) none).map {
    bits = record { nb = pos 3; start = pos 0; tab = some (0 ∷ 0 ∷ 0 ∷ []) };
  };
}

abbrev running_coils : Server
running_coils = record running_five { slaves = (pos 5, three_coils) ∷ [] }

sized : Slaves.Reach thousand nobody (Tables.create (pos 5) none) three_coils
unfolding set_block set_coil_block set_bit_table set_table resize_tab calloc resized pdu_address
    ◌-ℤ◌ Tables.create Slave.create
sized =
    Slaves.sizes coil (Tables.create (pos 5) none) three_coils minus_one (pos 3) 3 Slaves.here refl
      (inl refl)

life : Reach one_answers limits host thousand (new_server (some serial)) 0 running_coils 2
unfolding add_slave server_open open_server open_by private_open is_valid run create_on
    Tables.create Slave.create
life =
    then
      (then
        (then (then here (adds (pos 5) none refl))
          (uses (pos 5) (Tables.create (pos 5) none) three_coils 1 refl sized refl))
        (opens refl))
      (starts refl)

Reach-IsServer_example : IsServer running_coils
Reach-IsServer_example =
    Reach-IsServer one_answers limits host thousand (omega arith) host-IsHost thousand-IsMemory
      (some serial) 0 running_coils 2 life

run-terminate_example :
    run one_answers limits host (terminate one_answers limits host running_five 0).0
    ≡ thrown future_error
run-terminate_example =
    run-terminate one_answers limits host listening_five running_five 0 refl runs

abbrev read_one : Message
read_one = record (fresh limits rtu) { adu_size = 8; adu = 5 ∷ 3 ∷ 0 ∷ 0 ∷ 0 ∷ 1 ∷ 133 ∷ 142 ∷ [] }

-- A request to read from slave 5, where there is a slave 6 too.
abbrev asked : Server
asked = record listening_five {
  slaves = (pos 5, Tables.create (pos 5) none) ∷ (pos 6, Tables.create (pos 6) none) ∷ [];
  request = some read_one;
}

task-frame_example : Ensures (Frames (pos 5) asked) (task one_answers limits host asked 0 (pos 8))
unfolding byte
task-frame_example =
    task-frame one_answers limits host (omega arith) ((λ id. refl), (λ id. refl), refl) asked 0
      (pos 8) 5 (_, refl, refl)

-- Slave 5 answers.
answered : IsLocal asked serial read_one 5 (Tables.create (pos 5) none)
unfolding byte Tables.create Slave.create is_open
answered = record { lined = refl; requested = refl; numbered = refl; found = refl; closed = refl }

task-answers_example :
    Ends one_answers limits host
      ((λ id. refl), (λ id. refl), refl)
      serial
      read_one
      5
      (Tables.create (pos 5) none)
      (pos 8)
      answered.closed
      asked
      1
      (task one_answers limits host asked 0 (pos 8))
task-answers_example =
    task-answers one_answers limits host ((λ id. refl), (λ id. refl), refl) asked 0 serial read_one
      5 (Tables.create (pos 5) none) 8 answered (omega arith) refl

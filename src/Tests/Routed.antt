-- ===== src/Tests/Routed.antt =====
-- Requests that are passed on to an open device.
use libmodbuspp.Base.{ℕ, ◌≡◌, refl, arith, true, some, [], ◌∷◌, pos, ◌+ℤ◌, ◌-ℤ◌, fault, Returns}
use libmodbuspp.Message.{Message, rtu, byte, word}
use libmodbuspp.Message.Create.{fresh}
use libmodbuspp.Slave.{is_open, is_valid}
use libmodbuspp.Slave
use libmodbuspp.BufferedSlave.Block.Valid.{Holds}
use libmodbuspp.BufferedSlave.Tables.{coil, table_of}
use libmodbuspp.BufferedSlave.Safe.{AllWhole}
use libmodbuspp.BufferedSlave.Reach.{Reach-AllWhole}
use libmodbuspp.BufferedSlave.Block.{copy_in, clipped}
use libmodbuspp.BufferedSlave.Routing.{
  read_from_device, write_to_device, route_read, routed_address,
}
use libmodbuspp.BufferedSlave.Routing.Safe.{LeavesWhole, read_from_device-Returns}
use libmodbuspp.BufferedSlave.Routing.SafeWrite.{Leaves, write_to_device-Returns}
use libmodbuspp.Tests.Tables.{thousand, thousand-IsMemory}
use libmodbuspp.Tests.Stored.{answering, answering-IsClient, behind, sized, sized-Reach}
use libmodbuspp.Tests.Lifecycle.{limits}

-- A request to slave 5 for nine elements from address 1 on.
abbrev nine : ℕ → Message
nine f = record (fresh limits rtu) { adu_size = 8; adu = 5 ∷ f ∷ 0 ∷ 1 ∷ 0 ∷ 9 ∷ 0 ∷ 0 ∷ [] }

sized-AllWhole : AllWhole sized
sized-AllWhole =
    Reach-AllWhole thousand thousand-IsMemory answering (pos 5) behind sized answering-IsClient
      sized-Reach

sized-open : is_open sized.base ≡ true
unfolding is_open is_valid
sized-open = refl

sized-Holds : Holds (table_of coil sized.map) (0 ∷ 0 ∷ 0 ∷ [])
sized-Holds = record { held = refl; sized = refl }

read_from_device-Returns_example :
    Returns LeavesWhole (read_from_device answering sized 0 (some (nine 1)))
unfolding byte word
read_from_device-Returns_example =
    read_from_device-Returns answering answering-IsClient sized sized-AllWhole 0 sized-open (nine 1)
      1 9 refl refl coil (0 ∷ 0 ∷ 0 ∷ []) refl sized-Holds (omega arith)

write_to_device-Returns_example :
    Returns (Leaves sized) (write_to_device answering sized 0 (some (nine 0x0F)))
unfolding byte word
write_to_device-Returns_example =
    write_to_device-Returns answering sized 0 sized-open (nine 0x0F) 1 9 refl refl true true
      (0 ∷ 0 ∷ 0 ∷ []) refl sized-Holds (omega arith)

-- The holding registers have no memory: the value of the device goes before it.
reads_before_memory : read_from_device answering sized 0 (some (nine 3)) ≡ fault
unfolding read_from_device route_read copy_in clipped routed_address Slave.read_registers
    Slave.access Slave.is_open Slave.is_valid Slave.pdu_address byte word ◌+ℤ◌ ◌-ℤ◌
reads_before_memory = refl

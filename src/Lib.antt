-- ===== src/Lib.antt =====
-- libmodbuspp, a C++ library for Modbus over serial lines and TCP.
--
-- A program makes a `Device` over a network layer and reads or writes the tables of its slaves, or
-- runs a server whose buffered slaves answer from tables in memory. A `Message` holds the bytes of
-- a request or a response; the network layer frames it. The model has these parts, by directory of
-- the repository:
--   * RtuLayer/: `RtuLayer::crc16` of src/rtulayer.cpp with its tables. RtuLayer/Crc/ compares it
--     with the CRC that a serial line computes bit by bit.
--   * Message, Message/: the state `Message::Private` as a record, and the operations of
--     src/message.cpp on it (`setWord` is `set_word`, and so on).
--     Message/Bytes has the messages that setters reach, Message/Objects copies and comparison.
--   * Request and Response: the accessors of src/request.cpp and src/response.cpp.
--   * NetLayer: `prepareToSend` and `checkMessage` of src/netlayer.cpp, src/tcplayer.cpp and
--     src/rtulayer.cpp, and `Message::prepareToSend`, which calls them or works alone.
--   * Slave: src/slave.cpp, over a record `Client` of the calls of libmodbus, with the state
--     outside the library as a parameter.
--   * BufferedSlave/: src/bufferedslave.cpp. Block is one table and its accesses, Allocate its
--     resizing, Tables the operations on the four tables, Device the exchange with the device
--     behind a slave, Routing `readFromDevice` and `writeToDevice`, with Routing/Safe and
--     Routing/SafeWrite on the memory that they touch, Values the templates of
--     include/modbuspp/slave.h on values of several registers, Memory the tables as memories. Access
--     takes the table as an argument. Safe, SafeExchange and SafeUpdate are about whole tables,
--     and Reach has the slaves that calls reach; Through and SendThrough are about a device that
--     is open.
--   * Swap and Data: include/modbuspp/swap.h and include/modbuspp/data.h.
--   * Device: opening and closing in src/device.cpp, over a record `Line` of the calls of libmodbus;
--     Device/Send: `sendRawMessage`, over a record `Port`; Device/Settings: timeouts and
--     the rest; Device/Layers: `setBackend`. RtuLayer/Serial: the mode and the RTS of a serial
--     line. Master: src/master.cpp.
--   * Server/: src/server.cpp. State has `Server::Private`, Task what is done with a request, Control
--     the calls of the user and the rounds of the thread, over a record `Host`. Invariant and Keeps
--     say what these keep, Reach puts them in any order with the calls of the slaves, and Answer and
--     Frame follow a request.
--   * Router, Router/Names: src/router.cpp. SlaveReport: include/modbuspp/slavereport.h. Timeout:
--     src/timeout.cpp on integers.
--   * Json/: the configuration of slaves in src/json_p.h, src/slave.cpp and src/bufferedslave.cpp,
--     over a record `Reader` of what nlohmann::json says of a value. Devices, Kinds, Files and
--     Routers have that of devices, masters, servers and routers, with a record `Kind` of the
--     virtual functions that it calls and a record `Files` of the documents.
--   * Base: lists, integers and results over native numbers. Tests: runs and examples.
--
-- An operation takes the state and returns the new one in an `Outcome`: `ok`, `thrown` for a C++
-- exception, or `fault` for undefined behaviour (an access outside a buffer, a null pointer). A
-- `uint8_t` or `uint16_t` is a number below 2 ^ 8 or 2 ^ 16, and its wrap-around is written out; an
-- `int` is an integer without bounds, since the sums of addresses and sizes are far from them; a
-- `size_t` wraps where an `int` is converted to it. All loops run over a list or a count, but
-- those of `sendRawMessage` and of the thread of a server, which run until the world lets them end:
-- they have a bound on their rounds, and the theorems hold for every bound that is large enough.
--
-- libmodbus, the system, the allocator and nlohmann::json are parameters: `Client`, `Line`, `Port`,
-- `SerialPort`, `Context`, `Maker`, `Host`, `MasterHost`, `Allocator`, `Reader`, `Files`, `DeviceView`
-- and `Limits`. A hypothesis on one of them stands in the theorem that needs it: an allocator
-- returns a null pointer or memory of the size asked for, libmodbus stores and counts no more values
-- than it is asked for (`IsClient`), `modbus_reply` writes into the memory of the tables and the
-- functions of the user leave a server well formed (`IsHost`), and a message for TCP has room for
-- its header. A slave is changed by one call at a time: a round of the thread is one step. A `memcpy`
-- of a table to itself, which `updateBlockFromSlave` makes, is taken to leave it as it is.
--
-- Not modelled: printing; floating point numbers; accessors of names and of the functions of the user;
-- and the option parser include/modbuspp/popl.h, which is another project's.
pub mod Base
pub mod RtuLayer
pub mod Message
pub mod NetLayer
pub mod Request
pub mod Response
pub mod Slave
pub mod SlaveReport
pub mod BufferedSlave
pub mod Swap
pub mod Data
pub mod Tests
pub mod Timeout
pub mod Device
pub mod Server
pub mod Json
pub mod Master
pub mod Router

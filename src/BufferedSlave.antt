-- ===== src/BufferedSlave.antt =====
-- The `BufferedSlave` class of src/bufferedslave.cpp: a slave with a local copy of its four tables.
pub mod Block
pub mod Allocate
pub mod Tables
pub mod Device
pub mod Routing
pub mod Access
pub mod Safe
pub mod SafeExchange
pub mod SafeUpdate
pub mod Reach
pub mod Through
pub mod SendThrough
pub mod RoundTrip
pub mod Values
pub mod Memory

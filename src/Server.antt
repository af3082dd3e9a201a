-- ===== src/Server.antt =====
-- The `Server` class of src/server.cpp: a device whose buffered slaves answer what is received.
pub mod State
pub mod Open
pub mod Task
pub mod Control
pub mod Invariant
pub mod Keeps
pub mod Reach
pub mod Restart
pub mod Frame
pub mod Answer

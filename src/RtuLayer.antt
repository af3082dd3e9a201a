-- ===== src/RtuLayer.antt =====
-- The serial layer of src/rtulayer.cpp.
pub mod Tables
pub mod Crc
pub mod Settings
pub mod Serial

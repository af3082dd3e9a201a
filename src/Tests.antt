-- ===== src/Tests.antt =====
-- The theorems at concrete inputs, and runs of the code.
pub mod Lifecycle
pub mod Lines
pub mod Messages
pub mod Tables
pub mod Values
pub mod Servers
pub mod Sending
pub mod Config
pub mod Stored
pub mod Blocks
pub mod Routed
pub mod Setup

-- ===== src/Tcp.antt =====
-- rpkt/src/tcp.
pub mod Options
pub mod Header
pub mod Packet
pub mod Exchange
pub mod Prepend
pub mod Checksum
pub mod Verify

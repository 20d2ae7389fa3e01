-- ===== src/Udp.antt =====
-- rpkt/src/udp.
pub mod Header
pub mod Packet
pub mod Laws
pub mod Exchange
pub mod Checksum
pub mod Verify

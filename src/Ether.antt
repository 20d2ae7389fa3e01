-- ===== src/Ether.antt =====
-- rpkt/src/ether.
pub mod Header
pub mod Packet
pub mod Laws

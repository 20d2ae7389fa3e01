-- ===== src/Arp.antt =====
-- rpkt/src/arp.
pub mod Header
pub mod Layout
pub mod Packet
pub mod Exchange

-- ===== src/Ipv4.antt =====
-- rpkt/src/ipv4.
pub mod Header
pub mod Masks
pub mod Fields
pub mod Fragment
pub mod Packet
pub mod Options
pub mod Laws
pub mod Exchange
pub mod Checksum
pub mod Pseudo
pub mod Addr

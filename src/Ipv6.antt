-- ===== src/Ipv6.antt =====
-- rpkt/src/ipv6.
pub mod Options
pub mod Header
pub mod Fields
pub mod Packet
pub mod Laws
pub mod Exchange
pub mod Frag
pub mod Addr

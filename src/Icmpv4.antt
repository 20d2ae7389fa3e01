-- ===== src/Icmpv4.antt =====
-- rpkt/src/icmpv4.
pub mod Header
pub mod Packet
pub mod Laws
pub mod Exchange

-- ===== src/Icmpv6.antt =====
-- rpkt/src/icmpv6.
pub mod Packet
pub mod Kinds
pub mod Exchange
pub mod Bits
pub mod Msg
pub mod Access
pub mod Ndp

-- ===== src/Icmpv6/Ndp.antt =====
-- rpkt/src/icmpv6/ndp.
pub mod Options
pub mod RouterSolicit
pub mod RouterAdv
pub mod NeighborSolicit
pub mod NeighborAdv
pub mod Redirect

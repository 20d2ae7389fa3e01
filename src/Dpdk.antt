-- ===== src/Dpdk.antt =====
-- rpkt-dpdk/src.
pub mod Mbuf
pub mod Pbuf

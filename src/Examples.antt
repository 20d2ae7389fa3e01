-- ===== src/Examples.antt =====
-- Concrete instances of what the development takes as parameters, runs, and the theorems at concrete
-- inputs.
mod Crates
mod Checksums
mod Buffers
mod TcpOptions
mod Ipv6
mod Icmpv6
mod Packets
mod Views
mod Frames
mod Segments
mod Transport
mod Arp
mod Mbufs
mod Ipv4Options
mod Pbufs
mod Ipv6Options

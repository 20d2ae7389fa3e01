-- ===== src/Lib.antt =====
-- rpkt: packet parsing and building over byte buffers, in the crate rpkt.
--
-- A packet type of rpkt/src wraps a buffer. The buffer traits are `PktBuf` and `PktMut`
-- (rpkt/src/traits.rs), implemented by `Cursor` and `CursorMut` (rpkt/src/cursors.rs); the packet
-- types read and write header fields in the buffer's chunk, sum it (rpkt/src/checksum_utils.rs), and
-- move its position past their header to hand it to the next protocol. Options behind a header are
-- read by iterators and written by writers.
--
-- Files:
--   Base: lists of bytes over the native numbers, `Outcome` (a value, or a Rust panic), tests, and
--     `&` and `|` as arithmetic (Base/Bits).
--   Extern: the crates byteorder and bytes, as parameters with their documented behaviour.
--   Wire: the slice operations behind the accessors of rpkt/src/macros.rs: ranges, single bytes,
--     big-endian fields. A write through a mutable range is the buffer after it.
--   Traits, Cursors: rpkt/src/traits.rs and rpkt/src/cursors.rs; Cursors/Old: rpkt/src/cursors_old.rs.
--   Checksum: rpkt/src/checksum_utils.rs.
--   Tcp/Options: rpkt/src/tcp/option.rs, the reader and (Tcp/Options/Writer) the writer.
--   Packet: the getters and setters of `packet_base!`, and the steps that the packet types share.
--     Packet/Checksum and Packet/Adjust are about the checksum over a packet, Packet/Fixed about headers
--     of one length.
--   Udp, Ether, Ipv4, Tcp: Header is the header.rs of the protocol's directory under rpkt/src, Packet its
--     packet.rs, with its checksum in Checksum; the other files are about these, and Ipv4/Addr and
--     Ipv4/Pseudo about `Ipv4Addr` and `Ipv4PseudoHeader` of rpkt/src/ipv4/mod.rs.
--   OptionLoop: the loop by which the option readers check all bytes, over any reader.
--   Ipv4/Options: rpkt/src/ipv4/option.rs: the readers; Writer is the writer, Fields the accessors of an
--     option, Wire the bytes that the writer's calls write.
--   Ipv6/Options: rpkt/src/ipv6/extentions/option.rs, the readers and (Ipv6/Options/Writer) the writer;
--     Sequence is about lists of options.
--   Arp, Icmpv4: Header and Packet as above; Arp/Layout is about the bytes on the wire.
--   Ipv6: Header and Packet as above; Addr is `Ipv6Addr` of rpkt/src/ipv6/mod.rs, with Addr/Display its
--     text, and Addr/Parse a reader of such texts by RFC 4291, section 2.2; Frag is
--     rpkt/src/ipv6/extentions/frag.rs.
--   Icmpv6: rpkt/src/icmpv6: Packet is packet.rs, Msg msg.rs, the files of Icmpv6/Ndp the messages of
--     ndp/mod.rs, with the flags and reserved bytes that they share in Bits; Exchange (over the list of
--     messages in Kinds) and Access are about them. Icmpv6/Ndp/Options is ndp/option.rs: the reader;
--     Writer is the writer, Fields the accessors of an option.
--   Views: what the packet types offer over `Cursor` and `CursorMut` only (`cursor_header`,
--     `cursor_options`, `cursor_payload`, `split`), a file for each packet.rs; Agree compares them with
--     the packet types over any buffer.
--   Dpdk: rpkt-dpdk/src/multiseg.rs: the segment chain `Mbuf`; Valid is its invariant, Build and
--     Build/FromSlice `from_slice` over a pool as a parameter, Calls sequences of the operations.
--     Dpdk/Pbuf: rpkt-dpdk/src/pbuf.rs: the cursor `Pbuf` over such a chain; Sound is its invariant,
--     Refine compares it with a list of bytes and a position.
--   Stack: the UDP, IPv4 and Ethernet packets on top of each other.
--   Examples: the parameters instantiated, concrete runs, and the theorems at concrete inputs.
--
-- A byte is a number below 256 and a slice a list of numbers; functions that change a buffer return
-- it. A panic (an index out of bounds, a failed `assert!`) is the outcome `panic`. Additions on u32 and
-- u16 and differences on usize wrap, as in a release build. A sound buffer of a packet type is one in
-- one piece: `IsPktMut` of Traits asks that the chunk is all that remains, as it is in `CursorMut`.
-- `Pbuf` may have several segments and is no instance; Dpdk/Pbuf is about it without the packet types.
--
-- Fuel: `sum_chunks` and `buf_loop` take one round more than there are bytes; they never run out of
-- it. The loops of `check_option_bytes` take their fuel as an argument: the one over IPv6 options
-- needs one round more than there are bytes, and those over IPv4, TCP and NDP options may not end.
--
-- Not modelled: formatting but that of IPv6 addresses, the digits of numbers there (a number is its
-- value), the DPDK bindings, devices and queues (rpkt-dpdk-sys, and of rpkt-dpdk all
-- but multiseg.rs and pbuf.rs), the offload flags of `Mbuf`, clock calibration (rpkt-time), the
-- protocols that no file above names, and the mutable views of ICMPv6 messages and NDP options
-- (`msg_mut`, `NdpOptionIterMut`). `send` and `receive` of Stack are no functions of the sources but
-- the order in which the tests of rpkt/src/udp/packet.rs call the packet types.
pub mod Base
pub mod Extern
pub mod Checksum
pub mod Wire
pub mod Traits
pub mod Cursors
pub mod Tcp
pub mod Packet
pub mod Udp
pub mod Ether
pub mod Icmpv4
pub mod Icmpv6
pub mod Ipv4
pub mod Arp
pub mod Dpdk
pub mod Stack
pub mod Views
pub mod Examples
pub mod OptionLoop
pub mod Ipv6

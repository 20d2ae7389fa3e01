-- ===== src/Examples/Transport.antt =====
-- Checksums of packets in a `CursorMut`.
use rpkt.Base.{
  ℕ, ◌^◌, ◌==◌, ◌<◌, List, [], ◌∷◌, ◌++◌, replicate, true, if◌then◌else◌, ok, ◌≡◌, arith,
}
use rpkt.Cursors.{Cursor}
use rpkt.Cursors.Contract.{cursor_mut, cursor_mut-IsPktMut, behind, behind_holds}
use rpkt.Extern.{Take}
use rpkt.Packet.Laws.{Holds}
use rpkt.Wire.{splice}
use rpkt.Wire.Fields.{wire_u16}
use rpkt.Checksum.Spec.{fold}
use rpkt.Udp.Checksum.{verify_ipv4_checksum, adjust_ipv4_checksum}
use rpkt.Udp.Verify.{
  udp_words, stated_checksum, verify_ipv4_checksum_decides, verify-adjust_ipv4_checksum_udp,
}
use rpkt.Tcp.Checksum as Segment
use rpkt.Tcp.Verify.{tcp_words, verify-adjust_ipv4_checksum_tcp}
use rpkt.Icmpv4.Packet.{verify_checksum, adjust_checksum}
use rpkt.Icmpv4.Laws.{verify_checksum-adjust_checksum_icmpv4}
use rpkt.Examples.Crates.{network_endian, taker}

abbrev pub cursor_taker : Take cursor_mut.pkt_buf.buf
cursor_taker = taker cursor_mut.pkt_buf.buf

abbrev source : List ℕ
source = 192 ∷ 168 ∷ 29 ∷ 58 ∷ []

abbrev destination : List ℕ
destination = 192 ∷ 168 ∷ 29 ∷ 160 ∷ []

-- A datagram of ten bytes, and two bytes of padding.
abbrev datagram : List ℕ
datagram = 0 ∷ 53 ∷ 0 ∷ 99 ∷ 0 ∷ 10 ∷ 0xbc ∷ 0x86 ∷ 7 ∷ 8 ∷ 0 ∷ 0 ∷ []

abbrev incoming : Cursor
incoming = behind [] datagram

incoming-Holds : Holds cursor_mut cursor_mut-IsPktMut incoming [] datagram
incoming-Holds = behind_holds [] datagram (omega arith)

verify_ipv4_checksum_decides_example :
    (c : Cursor) × (verify_ipv4_checksum network_endian cursor_mut.pkt_buf cursor_taker source
        destination incoming
      ≡ ok (
        if stated_checksum datagram == 0
            then true
            else fold (udp_words source destination datagram) == 0xffff,
        c,
      ))
    × Holds cursor_mut cursor_mut-IsPktMut c [] datagram
verify_ipv4_checksum_decides_example =
    verify_ipv4_checksum_decides network_endian cursor_mut cursor_mut-IsPktMut cursor_taker source
      destination (omega arith) (omega arith) incoming [] datagram incoming-Holds (omega arith)
      (omega arith)

verify-adjust_ipv4_checksum_udp_example :
    (c d : Cursor) × (v : ℕ) × (adjust_ipv4_checksum network_endian cursor_mut cursor_taker source
        destination incoming
      ≡ ok c)
    × (0 < v)
    × (v < 2 ^ 16)
    × Holds cursor_mut cursor_mut-IsPktMut c [] (splice datagram 6 (wire_u16 v))
    × (fold (udp_words source destination (splice datagram 6 (wire_u16 v))) ≡ 0xffff)
    × (verify_ipv4_checksum network_endian cursor_mut.pkt_buf cursor_taker source destination c
        ≡ ok (true, d))
verify-adjust_ipv4_checksum_udp_example =
    verify-adjust_ipv4_checksum_udp network_endian cursor_mut cursor_mut-IsPktMut cursor_taker
      source destination (omega arith) (omega arith) incoming [] datagram incoming-Holds
      (omega arith) (omega arith)

-- A segment of twenty-one bytes.
abbrev segment : List ℕ
segment =
    0 ∷ 80 ∷ 0x1f ∷ 0x90 ∷ replicate 8 1 ++ (0x50 ∷ 0x10 ∷ 0xff ∷ 0xff ∷ 0 ∷ 0 ∷ 0 ∷ 0 ∷ 9 ∷ [])

abbrev arrived : Cursor
arrived = behind [] segment

arrived-Holds : Holds cursor_mut cursor_mut-IsPktMut arrived [] segment
arrived-Holds = behind_holds [] segment (omega arith)

verify-adjust_ipv4_checksum_tcp_example :
    (c d : Cursor) × (v : ℕ) × (Segment.adjust_ipv4_checksum network_endian cursor_mut cursor_taker
        source destination arrived
      ≡ ok c)
    × Holds cursor_mut cursor_mut-IsPktMut c [] (splice segment 16 (wire_u16 v))
    × (fold (tcp_words source destination (splice segment 16 (wire_u16 v))) ≡ 0xffff)
    × (Segment.verify_ipv4_checksum network_endian cursor_mut.pkt_buf cursor_taker source
          destination c
        ≡ ok (true, d))
verify-adjust_ipv4_checksum_tcp_example =
    verify-adjust_ipv4_checksum_tcp network_endian cursor_mut cursor_mut-IsPktMut cursor_taker
      source destination (omega arith) (omega arith) arrived [] segment arrived-Holds (omega arith)
      (omega arith) (omega arith)

verify_checksum-adjust_checksum_icmpv4_example :
    (c d : Cursor) × (v : ℕ) × (adjust_checksum network_endian cursor_mut cursor_taker incoming
      ≡ ok c)
    × Holds cursor_mut cursor_mut-IsPktMut c [] (splice datagram 2 (wire_u16 v))
    × (verify_checksum network_endian cursor_mut.pkt_buf cursor_taker c ≡ ok (true, d))
verify_checksum-adjust_checksum_icmpv4_example =
    verify_checksum-adjust_checksum_icmpv4 network_endian cursor_mut cursor_mut-IsPktMut
      cursor_taker incoming [] datagram incoming-Holds (omega arith) (omega arith) (omega arith)

-- ===== src/Examples/Frames.antt =====
-- IPv4 packets and whole frames in a `CursorMut`.
use rpkt.Base.{ℕ, List, [], ◌∷◌, replicate, ◌≡◌, arith, ok, take, drop, ◌⊎◌, inl, inr, true}
use rpkt.Cursors.{Cursor}
use rpkt.Cursors.Contract.{cursor_mut, cursor_mut-IsPktMut, behind, behind_holds}
use rpkt.Packet.Laws.{Holds, Gives}
use rpkt.Wire.{splice}
use rpkt.Wire.Fields.{wire_u16}
use rpkt.Udp.Header.{udp_header_template}
use rpkt.Ether.Header.{ether_header_template}
use rpkt.Ipv4.Header.{ipv4_header_template}
use rpkt.Ipv4.Packet.{parse, payload, adjust_checksum, verify_checksum}
use rpkt.Ipv4.Laws.{stated_len, stated_header_len, HasPacket}
use rpkt.Ipv4.Exchange.{parse_decides}
use rpkt.Ipv4.Checksum.{verify_checksum-adjust_checksum}
use rpkt.Stack.{send, receive, receive-send}
use rpkt.Examples.Crates.{network_endian}
use rpkt.Examples.Packets.{room, message, outgoing, outgoing-Holds}

-- A header of 24 bytes.
abbrev header_24 : List ℕ
header_24 = 0x46 ∷ drop 1 ipv4_header_template

-- A packet of 22 bytes in a frame of 26.
abbrev padded : List ℕ
padded = 0x45 ∷ 0 ∷ 0 ∷ 22 ∷ replicate 22 7

abbrev incoming : Cursor
incoming = behind [] padded

incoming-Holds : Holds cursor_mut cursor_mut-IsPktMut incoming [] padded
incoming-Holds = behind_holds [] padded (omega arith)

parse_decides_example :
    (HasPacket padded
      × (parse network_endian cursor_mut.pkt_buf.buf incoming ≡ ok (inl incoming))
      × Gives cursor_mut cursor_mut-IsPktMut
          (payload network_endian cursor_mut.pkt_buf incoming)
          (take (stated_header_len padded) (take (stated_len padded) padded))
          (drop (stated_header_len padded) (take (stated_len padded) padded)))
    ⊎ ((¬ HasPacket padded)
        × (parse network_endian cursor_mut.pkt_buf.buf incoming ≡ ok (inr incoming)))
parse_decides_example =
    parse_decides network_endian cursor_mut cursor_mut-IsPktMut incoming [] padded incoming-Holds

verify_checksum-adjust_checksum_example :
    (c : Cursor) × (adjust_checksum network_endian cursor_mut incoming ≡ ok c)
    × (verify_checksum network_endian cursor_mut.pkt_buf.buf c ≡ ok true)
    × ((v : ℕ) × Holds cursor_mut cursor_mut-IsPktMut c [] (splice padded 10 (wire_u16 v)))
verify_checksum-adjust_checksum_example =
    verify_checksum-adjust_checksum network_endian cursor_mut cursor_mut-IsPktMut incoming [] padded
      incoming-Holds (omega arith) (omega arith) (omega arith)

receive-send_example :
    (p : Cursor) × (send network_endian cursor_mut outgoing ether_header_template
        ipv4_header_template udp_header_template
      ≡ ok p)
    × cursor_mut-IsPktMut.IsSound p
    × ((q : Cursor) × (receive network_endian cursor_mut p ≡ ok q)
        × cursor_mut-IsPktMut.IsSound q
        × (cursor_mut-IsPktMut.body q ≡ message))
receive-send_example =
    receive-send network_endian cursor_mut cursor_mut-IsPktMut outgoing room message
      ether_header_template ipv4_header_template udp_header_template outgoing-Holds (omega arith)
      (omega arith) (omega arith) (omega arith) (omega arith) (omega arith)

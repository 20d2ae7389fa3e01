-- ===== src/Examples/Segments.antt =====
-- TCP segments in a `CursorMut`.
use rpkt.Base.{ℕ, List, [], ◌∷◌, ◌++◌, ◌-◌, ◌≡◌, arith, ok, take, drop, ◌⊎◌, inl, inr}
use rpkt.Cursors.{Cursor}
use rpkt.Cursors.Contract.{cursor_mut, cursor_mut-IsPktMut, behind, behind_holds}
use rpkt.Packet.Laws.{Holds, Gives}
use rpkt.Tcp.Header.{tcp_header_template}
use rpkt.Tcp.Packet.{parse, payload, option_bytes, prepend_header}
use rpkt.Tcp.Exchange.{stated_header_len, HasSegment, parse_decides_tcp}
use rpkt.Tcp.Prepend.{segment, payload-prepend_header_tcp}
use rpkt.Examples.Crates.{network_endian}
use rpkt.Examples.Packets.{room, message, outgoing, outgoing-Holds}

-- A header of 24 bytes.
abbrev header_24 : List ℕ
header_24 = take 12 tcp_header_template ++ (0x60 ∷ drop 13 tcp_header_template)

payload-prepend_header_tcp_example :
    (p : Cursor) × (prepend_header network_endian cursor_mut outgoing header_24 ≡ ok p)
    × Holds cursor_mut cursor_mut-IsPktMut p
        (take 40 room)
        (segment header_24 (drop 20 (drop 40 room)) message)
    × (parse network_endian cursor_mut.pkt_buf.buf p ≡ ok (inl p))
    × (option_bytes network_endian cursor_mut.pkt_buf.buf p ≡ ok (drop 20 (drop 40 room)))
    × ((q : Cursor) × (payload network_endian cursor_mut.pkt_buf.buf p ≡ ok q)
        × cursor_mut-IsPktMut.IsSound q
        × (cursor_mut-IsPktMut.body q ≡ message))
payload-prepend_header_tcp_example =
    payload-prepend_header_tcp network_endian cursor_mut cursor_mut-IsPktMut outgoing room message
      outgoing-Holds header_24 (omega arith) (omega arith) (omega arith)

abbrev arrived : List ℕ
arrived = header_24 ++ (2 ∷ 4 ∷ 5 ∷ 6 ∷ message)

abbrev incoming : Cursor
incoming = behind [] arrived

incoming-Holds : Holds cursor_mut cursor_mut-IsPktMut incoming [] arrived
incoming-Holds = behind_holds [] arrived (omega arith)

parse_decides_tcp_example :
    (HasSegment arrived
      × (parse network_endian cursor_mut.pkt_buf.buf incoming ≡ ok (inl incoming))
      × (option_bytes network_endian cursor_mut.pkt_buf.buf incoming
          ≡ ok (take (stated_header_len arrived - 20) (drop 20 arrived)))
      × Gives cursor_mut cursor_mut-IsPktMut
          (payload network_endian cursor_mut.pkt_buf.buf incoming)
          (take (stated_header_len arrived) arrived)
          (drop (stated_header_len arrived) arrived))
    ⊎ ((¬ HasSegment arrived)
        × (parse network_endian cursor_mut.pkt_buf.buf incoming ≡ ok (inr incoming)))
parse_decides_tcp_example =
    parse_decides_tcp network_endian cursor_mut cursor_mut-IsPktMut incoming [] arrived
      incoming-Holds

-- ===== src/Examples/Ipv6.antt =====
-- IPv6 packets, headers and addresses.
use rpkt.Base.{ℕ, ◌+◌, ◌≢◌, List, [], ◌∷◌, ◌++◌, replicate, take, drop, length, get_or, ok, ◌≡◌}
use rpkt.Base.{some, arith, true, ◌⊎◌, inl, inr}
use rpkt.Cursors.{Cursor}
use rpkt.Cursors.Contract.{cursor_mut, cursor_mut-IsPktMut, behind, behind_holds}
use rpkt.Packet.Laws.{Holds, Gives}
use rpkt.Ipv6.Header.{adjust_version, set_traffic_class, set_flow_label}
use rpkt.Ipv6.Fields.{stated_version, stated_class, stated_label, SameBehind, first_word_setters}
use rpkt.Ipv6.Packet.{parse, payload, prepend_header}
use rpkt.Ipv6.Laws.{stated_len, HasPacket, packet}
use rpkt.Ipv6.Exchange.{parse_decides_ipv6, payload-prepend_header_ipv6}
use rpkt.Ipv6.Frag.{set_frag_off, set_m_flag, adjust_reserved}
use rpkt.Ipv6.Frag.Fields.{
  stated_off, stated_reserved, stated_flag, bit, SameElsewhere, frag_setters,
}
use rpkt.Ipv6.Addr.Laws.{words_of}
use rpkt.Ipv6.Addr.Display.{Token, display}
use rpkt.Ipv6.Addr.Parse.{read_text}
use rpkt.Ipv6.Addr.Text.{read_text-display}
use rpkt.Examples.Crates.{network_endian}
use rpkt.Examples.Packets.{room, message, outgoing, outgoing-Holds}

abbrev ipv6_header : List ℕ
ipv6_header = 0x60 ∷ 0x12 ∷ 0x34 ∷ 0x56 ∷ 0 ∷ 3 ∷ 17 ∷ 64 ∷ replicate 32 0xfe

first_word_setters_example :
    ((z : List ℕ) × (adjust_version ipv6_header ≡ ok z)
      × (stated_version z ≡ 6)
      × (stated_class z ≡ stated_class ipv6_header)
      × (stated_label z ≡ stated_label ipv6_header)
      × SameBehind ipv6_header z)
    × ((z : List ℕ) × (set_traffic_class ipv6_header 0xb8 ≡ ok z)
        × (stated_version z ≡ stated_version ipv6_header)
        × (stated_class z ≡ 0xb8)
        × (stated_label z ≡ stated_label ipv6_header)
        × SameBehind ipv6_header z)
    × ((z : List ℕ) × (set_flow_label network_endian ipv6_header 0xabcde ≡ ok z)
        × (stated_version z ≡ stated_version ipv6_header)
        × (stated_class z ≡ stated_class ipv6_header)
        × (stated_label z ≡ 0xabcde)
        × SameBehind ipv6_header z)
first_word_setters_example =
    first_word_setters network_endian ipv6_header (omega arith) (omega arith) 0xb8 0xabcde
      (omega arith) (omega arith)

abbrev fragment : List ℕ
fragment = 17 ∷ 0 ∷ 0x05 ∷ 0xa9 ∷ 1 ∷ 2 ∷ 3 ∷ 4 ∷ []

frag_setters_example :
    ((z : List ℕ) × (set_frag_off network_endian fragment 185 ≡ ok z)
      × (stated_off z ≡ 185)
      × (stated_reserved z ≡ 0)
      × (stated_flag z ≡ stated_flag fragment)
      × SameElsewhere fragment z)
    × ((z : List ℕ) × (set_m_flag network_endian fragment true ≡ ok z)
        × (stated_off z ≡ stated_off fragment)
        × (stated_reserved z ≡ 0)
        × (stated_flag z ≡ bit true)
        × SameElsewhere fragment z)
    × ((z : List ℕ) × (adjust_reserved network_endian fragment ≡ ok z)
        × (stated_off z ≡ stated_off fragment)
        × (stated_reserved z ≡ 0)
        × (stated_flag z ≡ stated_flag fragment)
        × (get_or z 1 0 ≡ 0)
        × (length z ≡ length fragment)
        × ((j : ℕ) → j ≢ 1 → j ≢ 2 → j ≢ 3 → get_or z j 0 ≡ get_or fragment j 0))
frag_setters_example =
    frag_setters network_endian fragment (omega arith) (omega arith) 185 true (omega arith)

-- A packet with three bytes of payload, and two bytes behind it.
abbrev received : List ℕ
received = ipv6_header ++ (1 ∷ 2 ∷ 3 ∷ 0 ∷ 0 ∷ [])

abbrev incoming : Cursor
incoming = behind [] received

incoming-Holds : Holds cursor_mut cursor_mut-IsPktMut incoming [] received
incoming-Holds = behind_holds [] received (omega arith)

parse_decides_ipv6_example :
    (HasPacket received
      × (parse network_endian cursor_mut.pkt_buf.buf incoming ≡ ok (inl incoming))
      × Gives cursor_mut cursor_mut-IsPktMut
          (payload network_endian cursor_mut.pkt_buf incoming)
          (take 40 (take (40 + stated_len received) received))
          (drop 40 (take (40 + stated_len received) received)))
    ⊎ ((¬ HasPacket received)
        × (parse network_endian cursor_mut.pkt_buf.buf incoming ≡ ok (inr incoming)))
parse_decides_ipv6_example =
    parse_decides_ipv6 network_endian cursor_mut cursor_mut-IsPktMut incoming [] received
      incoming-Holds

payload-prepend_header_ipv6_example :
    (p : Cursor) × (prepend_header network_endian cursor_mut outgoing ipv6_header ≡ ok p)
    × Holds cursor_mut cursor_mut-IsPktMut p (take 24 room) (packet ipv6_header message)
    × (parse network_endian cursor_mut.pkt_buf.buf p ≡ ok (inl p))
    × ((q : Cursor) × (payload network_endian cursor_mut.pkt_buf p ≡ ok q)
        × cursor_mut-IsPktMut.IsSound q
        × (cursor_mut-IsPktMut.body q ≡ message))
payload-prepend_header_ipv6_example =
    payload-prepend_header_ipv6 network_endian cursor_mut cursor_mut-IsPktMut outgoing room message
      outgoing-Holds ipv6_header (omega arith) (omega arith) (omega arith)

-- 2001:db8::8:800:200c:417a
abbrev address : List ℕ
address =
    0x20 ∷ 0x01 ∷ 0x0d ∷ 0xb8 ∷ 0 ∷ 0 ∷ 0 ∷ 0 ∷ 0 ∷ 0x08 ∷ 0x08 ∷ 0 ∷ 0x20 ∷ 0x0c ∷ 0x41 ∷ 0x7a ∷ []

read_text-display_example :
    (text : List Token) × (display network_endian address ≡ ok text)
    × (read_text 8 text ≡ some (words_of address))
read_text-display_example = read_text-display network_endian address (omega arith)

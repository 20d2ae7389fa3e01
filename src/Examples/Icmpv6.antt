-- ===== src/Examples/Icmpv6.antt =====
-- ICMPv6 messages and options in concrete bytes.
use rpkt.Base.{ℕ, ◌*◌, Bool, List, [], ◌∷◌, ◌++◌, replicate, drop, take, get_or, none, some}
use rpkt.Base.{ok, panic, ◌≡◌, arith, ◌⊎◌, inl}
use rpkt.Cursors.{Cursor}
use rpkt.Cursors.Contract.{cursor_mut, cursor_mut-IsPktMut, behind, behind_holds}
use rpkt.Packet.Laws.{Holds}
use rpkt.Icmpv6.Packet.{parse, msg, ndp_redirect, any_msg}
use rpkt.Icmpv6.Kinds as Kinds
use rpkt.Icmpv6.Kinds.{prepend, blank}
use rpkt.Icmpv6.Exchange.{msg-prepend}
use rpkt.Icmpv6.Access.{Readable, any_msg-Readable}
use rpkt.Icmpv6.Ndp.Options.{from_option_bytes, next, check_option_bytes}
use rpkt.Icmpv6.Ndp.Options as Options
use rpkt.Icmpv6.Ndp.Options.Fields.{link_addr, set_link_addr, data_mut}
use rpkt.Icmpv6.Ndp.Options.Reader.{check_option_bytes_ends_ndp, zero_length_stalls_ndp}
use rpkt.Icmpv6.Ndp.Options.Writer as Writer
use rpkt.Icmpv6.Ndp.Options.Writer.{NdpOptionWriter, from_option_bytes_mut}
use rpkt.Icmpv6.Ndp.Options.RoundTrip.{next-src_link_addr, data_mut-redirected_hdr}
use rpkt.Examples.Crates.{network_endian}
use rpkt.Examples.Packets.{room}

abbrev empty : Cursor
empty = behind room []

empty-Holds : Holds cursor_mut cursor_mut-IsPktMut empty room []
empty-Holds = behind_holds room [] (omega arith)

msg-prepend_example :
    (c : Cursor) × (prepend cursor_mut Kinds.ndp_redirect empty 48 ≡ ok (blank 137 48, c))
    × Holds cursor_mut cursor_mut-IsPktMut c (take 16 room) (blank 137 48)
    × (parse network_endian cursor_mut.pkt_buf.buf c ≡ ok (inl c))
    × (msg network_endian cursor_mut.pkt_buf.buf c ≡ ok (ndp_redirect (blank 137 48)))
msg-prepend_example =
    msg-prepend network_endian cursor_mut cursor_mut-IsPktMut empty room 48 empty-Holds
      (omega arith) Kinds.ndp_redirect (omega arith)

-- An echo request, with a type that its bytes repeat.
any_msg-Readable_example : Readable network_endian (any_msg 128 (blank 128 12))
any_msg-Readable_example = any_msg-Readable network_endian (blank 128 12) (omega arith) 128

-- A source link address, and the start of another option.
check_option_bytes_ends_ndp_example :
    ((b : Bool) × (check_option_bytes 11 (1 ∷ 1 ∷ replicate 6 7 ++ (5 ∷ 1 ∷ [])) ≡ ok (some b)))
    ⊎ ((n : ℕ) → check_option_bytes n (1 ∷ 1 ∷ replicate 6 7 ++ (5 ∷ 1 ∷ [])) ≡ ok none)
check_option_bytes_ends_ndp_example =
    check_option_bytes_ends_ndp 11 (1 ∷ 1 ∷ replicate 6 7 ++ (5 ∷ 1 ∷ [])) (omega arith)

zero_length_stalls_ndp_example : check_option_bytes 100 (1 ∷ 0 ∷ 3 ∷ 4 ∷ []) ≡ ok none
zero_length_stalls_ndp_example = zero_length_stalls_ndp (3 ∷ 4 ∷ []) 100

abbrev fresh : NdpOptionWriter
fresh = from_option_bytes_mut (replicate 20 9)

abbrev addr : List ℕ
addr = 0 ∷ 0x50 ∷ 0x56 ∷ 0xae ∷ 0x76 ∷ 0xf5 ∷ []

next-src_link_addr_example :
    ((opt : List ℕ) × (Writer.src_link_addr fresh
        ≡ ok (opt, record fresh { buf = drop 8 fresh.buf }))
      × (set_link_addr opt addr ≡ ok (1 ∷ 1 ∷ addr))
      × (next (from_option_bytes (1 ∷ 1 ∷ addr ++ (5 ∷ [])))
          ≡ ok (some (Options.src_link_addr (1 ∷ 1 ∷ addr)), from_option_bytes (5 ∷ [])))
      × (link_addr (1 ∷ 1 ∷ addr) ≡ ok addr))
    × ((opt : List ℕ) × (Writer.dst_link_addr fresh
          ≡ ok (opt, record fresh { buf = drop 8 fresh.buf }))
        × (set_link_addr opt addr ≡ ok (2 ∷ 1 ∷ addr))
        × (next (from_option_bytes (2 ∷ 1 ∷ addr ++ (5 ∷ [])))
            ≡ ok (some (Options.dst_link_addr (2 ∷ 1 ∷ addr)), from_option_bytes (5 ∷ [])))
        × (link_addr (2 ∷ 1 ∷ addr) ≡ ok addr))
next-src_link_addr_example = next-src_link_addr fresh addr (5 ∷ []) (omega arith) (omega arith)

data_mut-redirected_hdr_example :
    (opt : List ℕ) × (Writer.redirected_hdr fresh 16
      ≡ ok (opt, record fresh { buf = drop 8 fresh.buf }))
    × (get_or opt 1 0 * 8 ≡ 16)
    × (data_mut opt ≡ panic)
data_mut-redirected_hdr_example =
    data_mut-redirected_hdr fresh 16 (omega arith) (omega arith) (omega arith) (omega arith)

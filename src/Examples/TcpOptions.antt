-- ===== src/Examples/TcpOptions.antt =====
-- TCP options in concrete bytes.
use rpkt.Base.{ℕ, List, [], ◌∷◌, none, true, ok, ◌≡◌, arith, drop, replicate}
use rpkt.Tcp.Options.{
  TcpOption, eol, nop, mss, wsopt, sack_perm, ts, fo, from_option_bytes, check_option_bytes,
}
use rpkt.Tcp.Options.Reader.{zero_length_stalls}
use rpkt.Tcp.Options.Writer.{TcpOptionWriter, from_option_bytes_mut}
use rpkt.Tcp.Options.RoundTrip.{write_all, collect, collect-write_all}
use rpkt.Examples.Crates.{network_endian}

abbrev handshake : List TcpOption
handshake = mss 1460 ∷ sack_perm ∷ ts 0x01020304 0 ∷ nop ∷ wsopt 7 ∷ fo (replicate 16 9) ∷ eol ∷ []

-- A window scale option that is cut off.
abbrev cut_off : List ℕ
cut_off = 1 ∷ 3 ∷ 3 ∷ []

collect-write_all_example :
    (w : TcpOptionWriter) × (write_all network_endian handshake
        (from_option_bytes_mut (replicate 60 0))
      ≡ ok w)
    × (w.buf ≡ drop 39 (replicate 60 0))
    × (collect network_endian 8 (from_option_bytes w.written) ≡ ok (handshake, true))
collect-write_all_example =
    collect-write_all network_endian handshake (replicate 60 0) (omega arith) (omega arith)

zero_length_stalls_example : check_option_bytes network_endian 100 (253 ∷ 0 ∷ 1 ∷ 1 ∷ []) ≡ ok none
zero_length_stalls_example =
    zero_length_stalls network_endian 253 (1 ∷ 1 ∷ []) (omega arith) (omega arith) (omega arith) 100

-- ===== src/Examples/Ipv6Options.antt =====
-- IPv6 options in concrete bytes.
use rpkt.Base.{List, [], ◌∷◌, Bool, true, some, ok, ◌≡◌, arith, drop, replicate}
use rpkt.Ipv6.Options.{from_option_bytes, check_option_bytes}
use rpkt.Ipv6.Options.Reader.{check_option_bytes_total}
use rpkt.Ipv6.Options.Writer.{Ipv6OptionWriter, from_option_bytes_mut}
use rpkt.Ipv6.Options.RoundTrip.{Request, one_pad, pads, with_data}
use rpkt.Ipv6.Options.Sequence.{write_all, collect, options, collect-write_all_ipv6}

abbrev requests : List Request
requests = with_data 5 (0 ∷ 2 ∷ []) ∷ one_pad ∷ pads 4 ∷ []

collect-write_all_ipv6_example :
    (w : Ipv6OptionWriter) × (write_all requests (from_option_bytes_mut (replicate 16 9)) ≡ ok w)
    × (w.buf ≡ drop 9 (replicate 16 9))
    × (collect 4 (from_option_bytes w.written) ≡ ok (options requests, true))
collect-write_all_ipv6_example =
    collect-write_all_ipv6 requests (replicate 16 9)
      ((omega arith, omega arith), (tt, ((omega arith, omega arith), tt))) (omega arith)

-- An option that is cut off.
check_option_bytes_total_example :
    (b : Bool) × (check_option_bytes 4 (5 ∷ 7 ∷ 0 ∷ []) ≡ ok (some b))
check_option_bytes_total_example = check_option_bytes_total 4 (5 ∷ 7 ∷ 0 ∷ []) (omega arith)

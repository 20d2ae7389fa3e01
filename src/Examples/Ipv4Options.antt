-- ===== src/Examples/Ipv4Options.antt =====
-- IPv4 options in concrete bytes.
use rpkt.Base.{
  ℕ, ◌≤◌, ◌<◌, ◌++◌, List, [], ◌∷◌, none, some, true, length, take, ok, panic, ◌≡◌, refl, ◌⊎◌,
  arith, drop, replicate,
}
use rpkt.Ipv4.Options.{ts, from_option_bytes, next, check_option_bytes}
use rpkt.Ipv4.Options.Reader.{unknown_stalls}
use rpkt.Ipv4.Options.Fields.{readable, writable, inc_readable_size}
use rpkt.Ipv4.Options.Fields.Moves.{IsFilling, readable-inc_readable_size}
use rpkt.Ipv4.Options.Pointer.{readable-next}
use rpkt.Ipv4.Options.Writer.{Ipv4OptionWriter, from_option_bytes_mut}
use rpkt.Ipv4.Options.Wire.{Request, end_list, no_op, stamps, route, alert}
use rpkt.Ipv4.Options.RoundTrip.{write_all, collect, options, collect-write_all_ipv4}
use rpkt.Examples.Crates.{network_endian}

abbrev requests : List Request
requests = alert 5 ∷ no_op ∷ stamps 12 ∷ route 7 ∷ end_list ∷ []

collect-write_all_ipv4_example :
    (w : Ipv4OptionWriter) × (write_all network_endian requests
        (from_option_bytes_mut (replicate 40 9))
      ≡ ok w)
    × (w.buf ≡ drop 25 (replicate 40 9))
    × (collect 6 (from_option_bytes w.written) ≡ ok (options requests, true))
collect-write_all_ipv4_example =
    collect-write_all_ipv4 network_endian requests (replicate 40 9)
      (tt, tt, (tt, tt, (refl, tt, (refl, tt, (tt, refl, tt))))) (omega arith)

-- A timestamp with the pointer 41 behind its four bytes: the reader gives it.
abbrev far_pointer : List ℕ
far_pointer = 68 ∷ 4 ∷ 41 ∷ 0 ∷ []

unknown_stalls_example : check_option_bytes 9 (130 ∷ 0 ∷ 1 ∷ []) ≡ ok none
unknown_stalls_example =
    unknown_stalls 130 (1 ∷ []) (omega arith) (omega arith) (omega arith) (omega arith) 9

-- An unknown option of three bytes.
abbrev short_unknown : List ℕ
short_unknown = 130 ∷ 3 ∷ 7 ∷ []

abbrev one_stamp : List ℕ
one_stamp = 68 ∷ 12 ∷ 9 ∷ 0 ∷ 1 ∷ 2 ∷ 3 ∷ 4 ∷ 0 ∷ 0 ∷ 0 ∷ 0 ∷ []

one_stamp-IsFilling : IsFilling 4 one_stamp
one_stamp-IsFilling = record {
  behind_head = omega arith;
  counted = refl;
  short = omega arith;
  started = omega arith;
  within = omega arith;
}

readable-inc_readable_size_example :
    (r : List ℕ) × (w : List ℕ) × (readable 4 one_stamp ≡ ok r)
    × (writable one_stamp ≡ ok w)
    × (r ++ w ≡ drop 4 one_stamp)
    × (((4 ≤ length w)
          × ((buf' : List ℕ) × (inc_readable_size one_stamp 4 ≡ ok buf')
              × IsFilling 4 buf'
              × (readable 4 buf' ≡ ok (r ++ take 4 w))
              × (writable buf' ≡ ok (drop 4 w))))
        ⊎ ((length w < 4) × (inc_readable_size one_stamp 4 ≡ panic)))
readable-inc_readable_size_example = readable-inc_readable_size 4 one_stamp 4 one_stamp-IsFilling

readable-next_example :
    (next (from_option_bytes far_pointer) ≡ ok (some (ts far_pointer), from_option_bytes []))
    × (readable 4 far_pointer ≡ panic)
readable-next_example = readable-next 4 41 (0 ∷ []) refl refl refl (omega arith)

-- ===== src/Ipv6/Options/Sequence.antt =====
-- Sequences of options: what the calls of `Ipv6OptionWriter` write, `Ipv6OptionIter` gives back.
use rpkt.Base.{
  ℕ, zero, suc, ◌+◌, ◌≤◌, ◌<◌, Bool, true, List, [], ◌∷◌, ◌++◌, none, some, Outcome, ok, panic,
  ◌>>=◌, length, drop, ◌≡◌, refl, arith, ap, ◌∙◌, sym, append-nil, append_assoc, length-append,
  length-drop, drop-drop,
}
use rpkt.Ipv6.Options.{Ipv6Option, Ipv6OptionIter, from_option_bytes, next}
use rpkt.Ipv6.Options.Writer.{Ipv6OptionWriter, from_option_bytes_mut}
use rpkt.Ipv6.Options.RoundTrip.{
  Request, encode, option, IsWritable, after, write, write_ok, read_back,
}

-- The options that `next` gives until it gives none, and whether the bytes were valid.
pub collect : ℕ → Ipv6OptionIter → Outcome (List Ipv6Option × Bool)
collect zero it = panic
collect (suc fuel) it = next it >>= λ s. elim s.0 [
  | none ↦ ok ([], s.1.valid)
  | some opt ↦ collect fuel s.1 >>= λ r. ok (opt ∷ r.0, r.1)
]

abbrev pub encode_all : List Request → List ℕ
encode_all [] = []
encode_all (o ∷ os) = encode o ++ encode_all os

abbrev pub options : List Request → List Ipv6Option
options [] = []
options (o ∷ os) = option o ∷ options os

abbrev pub AreWritable : List Request → Type 0
AreWritable [] = Unit {0}
AreWritable (o ∷ os) = IsWritable o × AreWritable os

-- The calls of a writer, in order.
pub write_all : List Request → Ipv6OptionWriter → Outcome Ipv6OptionWriter
write_all [] w = ok w
write_all (o ∷ os) w = write o w >>= write_all os

after-append : (w : Ipv6OptionWriter) (xs ys : List ℕ) → after (after w xs) ys ≡ after w (xs ++ ys)
after-append w xs ys = λ i. record {
  written = append_assoc w.written xs ys i;
  buf =
      (drop-drop (length xs) (length ys) w.buf ∙ ap (λ n. drop n w.buf) (sym (length-append xs ys)))
        i;
}

collect_ok :
    (os : List Request) (fuel : ℕ)
    → AreWritable os
    → length os < fuel
    → collect fuel (from_option_bytes (encode_all os)) ≡ ok (options os, true)
unfolding collect
collect_ok os zero u h = absurd (omega arith)
collect_ok [] (suc fuel) u h = unfold next in refl
collect_ok (o ∷ os) (suc fuel) (u, us) h =
    rw (read_back o (encode_all os) u, collect_ok os fuel us (omega arith))

write_all_ok :
    (os : List Request) (w : Ipv6OptionWriter)
    → AreWritable os
    → length (encode_all os) ≤ length w.buf
    → write_all os w ≡ ok (after w (encode_all os))
unfolding write_all
write_all_ok [] w u h =
    ap (λ t. ok (record { written = t; buf = w.buf })) (sym (append-nil w.written))
write_all_ok (o ∷ os) w (u, us) h =
    let total : length (encode o ++ encode_all os) ≡ length (encode o) + length (encode_all os) =
      length-append (encode o) (encode_all os) in
    rw (write_ok o w u (omega arith)) (
      write_all_ok os (after w (encode o)) us (omega (arith, length-drop (length (encode o)) w.buf))
      ∙ ap ok (after-append w (encode o) (encode_all os)))

-- Padding of 2 to 257 bytes, and options of a type above 1 with fewer than 256 bytes of data, are
-- written without a panic into a buffer that is large enough. The reader gives the same options in order
-- and reports the bytes as valid; the bytes behind them are untouched and still to be written.
pub collect-write_all_ipv6 :
    (os : List Request) (buf : List ℕ)
    → AreWritable os
    → length (encode_all os) ≤ length buf
    → (w : Ipv6OptionWriter) × (write_all os (from_option_bytes_mut buf) ≡ ok w)
      × (w.buf ≡ drop (length (encode_all os)) buf)
      × (collect (suc (length os)) (from_option_bytes w.written) ≡ ok (options os, true))
collect-write_all_ipv6 os buf u h = (
  after (from_option_bytes_mut buf) (encode_all os),
  write_all_ok os (from_option_bytes_mut buf) u h,
  refl,
  collect_ok os (suc (length os)) u (omega arith),
)

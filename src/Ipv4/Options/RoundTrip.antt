-- ===== src/Ipv4/Options/RoundTrip.antt =====
-- What `Ipv4OptionWriter` writes, `Ipv4OptionIter` reads back.
use rpkt.Base.{
  ℕ, zero, suc, ◌+◌, ◌-◌, ◌≤◌, ◌<◌, Bool, true, List, [], ◌∷◌, ◌++◌, replicate, none, some,
}
use rpkt.Base.{
  Outcome, ok, panic, ◌>>=◌, length, drop, ◌≡◌, refl, arith, le→ltb, ap, ◌∙◌, sym, append-nil,
  append_assoc,
}
use rpkt.Base.{
  length-zero, length-append, length-replicate, length-drop, drop-drop, take_prefix, drop_prefix,
}
use rpkt.Extern.{ByteOrder}
use rpkt.Wire.Fields.{wire_u16}
use rpkt.Wire.{slice_to}
use rpkt.Wire.Laws.{slice_from_ok, byte_at_ok}
use rpkt.Ipv4.Options.{Ipv4Option, Ipv4OptionIter, nop, ts, rr, ra, from_option_bytes, found}
use rpkt.Ipv4.Options.{
  read_ts, read_rr, read_ra, read_unknown, read_long, read_option, next_with, next,
}
use rpkt.Ipv4.Options.Reader.{found_ok, prefix_ok}
use rpkt.Ipv4.Options.Writer.{Ipv4OptionWriter, from_option_bytes_mut}
use rpkt.Ipv4.Options.Wire.{
  Request, end_list, no_op, stamps, route, alert, encode, option, IsWritable, Follows, after, write,
  write_ok,
}

pub next-read_option :
    (kind : ℕ) (buf : List ℕ)
    → next (from_option_bytes (kind ∷ buf)) ≡ read_option read_unknown kind (kind ∷ buf)
unfolding next_with
next-read_option kind buf = ground (arith, byte_at_ok (kind ∷ buf) 0 (omega arith))

-- The first `length front` bytes are an option.
pub prefix_found :
    (front rest : List ℕ) (n : ℕ) (make : List ℕ → Ipv4Option)
    → length front ≡ n
    → (slice_to (front ++ rest) n >>= λ bytes. found (front ++ rest) n (make bytes))
      ≡ ok (some (make front), from_option_bytes rest)
prefix_found front rest n make e =
    prefix_ok (front ++ rest) n make (omega (arith, length-append front rest))
    ∙ rw (take_prefix n front rest e, drop_prefix n front rest e)

read_back :
    (o : Request) (rest : List ℕ)
    → IsWritable o
    → Follows o rest
    → next (from_option_bytes (encode o ++ rest)) ≡ ok (some (option o), from_option_bytes rest)
unfolding read_option read_long read_ts read_rr read_ra
read_back end_list rest u f =
    next-read_option 0 rest ∙ rw (slice_from_ok (0 ∷ rest) 1 (omega arith), length-zero rest f)
read_back no_op rest u f = next-read_option 1 rest ∙ found_ok (1 ∷ rest) 1 nop (omega arith)
read_back (stamps len) rest u f =
    let zs : List ℕ = replicate (len - 3) 0 in
    let buf : List ℕ = encode (stamps len) ++ rest in
    let zeros : length zs ≡ len - 3 = length-replicate (len - 3) 0 in
    let h4 : 4 ≤ len = ground arith in
    let long : len ≤ length buf = omega (arith, length-append zs rest) in
    next-read_option 68 (len ∷ 5 ∷ (zs ++ rest))
    ∙ rw
        (
          le→ltb 2 (length buf) (omega arith),
          byte_at_ok buf 1 (omega arith),
          byte_at_ok buf 2 (omega arith),
          u,
          le→ltb len (length buf) long,
        )
        (prefix_found (encode (stamps len)) rest len ts (omega arith))
read_back (route len) rest u f =
    let zs : List ℕ = replicate (len - 3) 0 in
    let buf : List ℕ = encode (route len) ++ rest in
    let zeros : length zs ≡ len - 3 = length-replicate (len - 3) 0 in
    let h3 : 3 ≤ len = ground arith in
    let long : len ≤ length buf = omega (arith, length-append zs rest) in
    next-read_option 7 (len ∷ 4 ∷ (zs ++ rest))
    ∙ rw
        (
          le→ltb 2 (length buf) (omega arith),
          byte_at_ok buf 1 (omega arith),
          byte_at_ok buf 2 (omega arith),
          u,
          le→ltb len (length buf) long,
        )
        (prefix_found (encode (route len)) rest len rr (omega arith))
read_back (alert value) rest u f =
    let buf : List ℕ = encode (alert value) ++ rest in
    next-read_option 148 (4 ∷ (wire_u16 value ++ rest))
    ∙ rw
        (
          le→ltb 2 (length buf) (omega arith),
          byte_at_ok buf 1 (omega arith),
          le→ltb 4 (length buf) (omega arith),
        )
        (prefix_found (encode (alert value)) rest 4 ra refl)

-- The options that `next` gives until it gives none, and whether the bytes were valid.
pub collect : ℕ → Ipv4OptionIter → Outcome (List Ipv4Option × Bool)
collect zero it = panic
collect (suc fuel) it = next it >>= λ s. elim s.0 [
  | none ↦ ok ([], s.1.valid)
  | some opt ↦ collect fuel s.1 >>= λ r. ok (opt ∷ r.0, r.1)
]

abbrev pub encode_all : List Request → List ℕ
encode_all [] = []
encode_all (o ∷ os) = encode o ++ encode_all os

abbrev pub options : List Request → List Ipv4Option
options [] = []
options (o ∷ os) = option o ∷ options os

-- Lengths that the writer takes, with an end of list only at the end.
abbrev pub AreWritable : List Request → Type 0
AreWritable [] = Unit {0}
AreWritable (o ∷ os) = IsWritable o × Follows o (encode_all os) × AreWritable os

after-append : (w : Ipv4OptionWriter) (xs ys : List ℕ) → after (after w xs) ys ≡ after w (xs ++ ys)
after-append w xs ys = λ i. record {
  written = append_assoc w.written xs ys i;
  buf =
      (drop-drop (length xs) (length ys) w.buf ∙ ap (λ n. drop n w.buf) (sym (length-append xs ys)))
        i;
}

collect_ok :
    (os : List Request) (fuel : ℕ)
    → AreWritable os
    → length os < fuel
    → collect fuel (from_option_bytes (encode_all os)) ≡ ok (options os, true)
unfolding collect
collect_ok os zero u h = absurd (omega arith)
collect_ok [] (suc fuel) u h = unfold next_with in refl
collect_ok (o ∷ os) (suc fuel) (u, f, us) h =
    rw (read_back o (encode_all os) u f, collect_ok os fuel us (omega arith))

module _ (net : ByteOrder) where
  -- The calls of a writer, in order.
  pub write_all : List Request → Ipv4OptionWriter → Outcome Ipv4OptionWriter
  write_all [] w = ok w
  write_all (o ∷ os) w = write net o w >>= write_all os

  write_all_ok :
      (os : List Request) (w : Ipv4OptionWriter)
      → AreWritable os
      → length (encode_all os) ≤ length w.buf
      → write_all os w ≡ ok (after w (encode_all os))
  unfolding write_all
  write_all_ok [] w u h =
      ap (λ t. ok (record { written = t; buf = w.buf })) (sym (append-nil w.written))
  write_all_ok (o ∷ os) w (u, f, us) h =
      let total : length (encode o ++ encode_all os) ≡ length (encode o) + length (encode_all os) =
        length-append (encode o) (encode_all os) in
      rw (write_ok net o w u (omega arith)) (
        write_all_ok os (after w (encode o)) us
          (omega (arith, length-drop (length (encode o)) w.buf))
        ∙ ap ok (after-append w (encode o) (encode_all os)))

  -- Options with lengths that the writer takes, an end of list only last, are written without a panic
  -- into a buffer that is large enough. The reader gives the same options in order and reports the bytes
  -- as valid; the bytes behind them are untouched and still to be written.
  pub collect-write_all_ipv4 :
      (os : List Request) (buf : List ℕ)
      → AreWritable os
      → length (encode_all os) ≤ length buf
      → (w : Ipv4OptionWriter) × (write_all os (from_option_bytes_mut buf) ≡ ok w)
        × (w.buf ≡ drop (length (encode_all os)) buf)
        × (collect (suc (length os)) (from_option_bytes w.written) ≡ ok (options os, true))
  collect-write_all_ipv4 os buf u h = (
    after (from_option_bytes_mut buf) (encode_all os),
    write_all_ok os (from_option_bytes_mut buf) u h,
    refl,
    collect_ok os (suc (length os)) u (omega arith),
  )

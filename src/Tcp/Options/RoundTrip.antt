-- ===== src/Tcp/Options/RoundTrip.antt =====
-- What the writer writes, the reader reads back.
use rpkt.Base.{
  length-zero, ℕ, zero, suc, ◌+◌, ◌≤◌, ◌<◌, Bool, true, List, [], ◌∷◌, ◌++◌, none, some,
}
use rpkt.Base.{
  Outcome, ok, panic, ◌>>=◌, length, drop, ◌≡◌, refl, arith, ap, ◌∙◌, sym, append-nil, append_assoc,
}
use rpkt.Base.{length-append, drop-drop, length-drop, take_prefix, drop_prefix}
use rpkt.Extern.{ByteOrder}
use rpkt.Wire.Fields.{wire_u16, wire_u32}
use rpkt.Wire.Laws.{slice_ok, slice_from_ok, byte_at_ok, field_u16_ok, field_u32_ok}
use rpkt.Tcp.Options.{
  TcpOption, TcpOptionIter, eol, nop, sack_perm, mss, wsopt, sack, fo, unknown, ts,
}
use rpkt.Tcp.Options.{
  from_option_bytes, next, read_option, read_long, read_mss, read_wsopt, read_sack_perm, read_ts,
  read_fo,
}
use rpkt.Tcp.Options.Reader.{found_ok}
use rpkt.Tcp.Options.Writer.{TcpOptionWriter, from_option_bytes_mut}
use rpkt.Tcp.Options.Wire.{encode, IsWritable, after, write, write_ok}

-- An end of list stands last.
abbrev pub Follows : TcpOption → List ℕ → Type 0
Follows eol rest = length rest ≡ 0
Follows _ rest = Unit

module _ (net : ByteOrder) where
  next-read_option :
      (kind : ℕ) (buf : List ℕ)
      → next net (from_option_bytes (kind ∷ buf)) ≡ read_option net kind (kind ∷ buf)
  unfolding next
  next-read_option kind buf = ground (arith, byte_at_ok (kind ∷ buf) 0 (omega arith))

  read_back :
      (o : TcpOption) (rest : List ℕ)
      → IsWritable o
      → Follows o rest
      → next net (from_option_bytes (encode o ++ rest)) ≡ ok (some o, from_option_bytes rest)
  unfolding read_option read_long read_mss read_wsopt read_sack_perm read_ts read_fo
  read_back eol rest u f =
      next-read_option 0 rest ∙ rw (slice_from_ok (0 ∷ rest) 1 (omega arith), length-zero rest f)
  read_back nop rest u f = next-read_option 1 rest ∙ found_ok (1 ∷ rest) 1 nop (omega arith)
  read_back sack_perm rest u f =
      let buf : List ℕ = 4 ∷ 2 ∷ rest in
      next-read_option 4 (2 ∷ rest)
      ∙ ground (arith, byte_at_ok buf 1 (omega arith), found_ok buf 2 sack_perm (omega arith))
  read_back (mss v) rest u f =
      let buf : List ℕ = encode (mss v) ++ rest in
      next-read_option 2 (4 ∷ (wire_u16 v ++ rest))
      ∙ ground (
        arith,
        byte_at_ok buf 1 (omega arith),
        field_u16_ok net 2 buf (omega arith),
        found_ok buf 4 (mss v) (omega arith),
      )
  read_back (wsopt v) rest u f =
      let buf : List ℕ = encode (wsopt v) ++ rest in
      next-read_option 3 (3 ∷ v ∷ rest)
      ∙ ground (
        arith,
        byte_at_ok buf 1 (omega arith),
        byte_at_ok buf 2 (omega arith),
        found_ok buf 3 (wsopt v) (omega arith),
      )
  read_back (ts a b) rest u f =
      let buf : List ℕ = encode (ts a b) ++ rest in
      next-read_option 8 (10 ∷ ((wire_u32 a ++ wire_u32 b) ++ rest))
      ∙ ground (
        arith,
        byte_at_ok buf 1 (omega arith),
        field_u32_ok net 2 buf (omega arith),
        field_u32_ok net 6 buf (omega arith),
        found_ok buf 10 (ts a b) (omega arith),
      )
  read_back (fo cookie) rest u f =
      let buf : List ℕ = encode (fo cookie) ++ rest in
      let long : 18 ≤ length buf = omega (arith, length-append cookie rest) in
      next-read_option 34 (18 ∷ (cookie ++ rest))
      ∙ ground (
        arith,
        byte_at_ok buf 1 (omega arith),
        slice_ok buf 2 18 (omega arith) long,
        found_ok buf 18 (fo cookie) long,
        take_prefix 16 cookie rest u,
        drop_prefix 16 cookie rest u,
      )
  read_back (sack bytes) rest u f = absurd u
  read_back (unknown bytes) rest u f = absurd u

  -- The calls of a writer, one for each option.
  pub write_all : List TcpOption → TcpOptionWriter → Outcome TcpOptionWriter
  write_all [] w = ok w
  write_all (o ∷ os) w = write net o w >>= write_all os

  -- The options that `next` gives until it gives none, and whether the bytes were valid.
  pub collect : ℕ → TcpOptionIter → Outcome (List TcpOption × Bool)
  collect zero it = panic
  collect (suc fuel) it = next net it >>= λ s. elim s.0 [
    | none ↦ ok ([], s.1.valid)
    | some opt ↦ collect fuel s.1 >>= λ r. ok (opt ∷ r.0, r.1)
  ]

abbrev pub encode_all : List TcpOption → List ℕ
encode_all [] = []
encode_all (o ∷ os) = encode o ++ encode_all os

-- Options that fit their fields, with an end of list only at the end.
abbrev pub AreWritable : List TcpOption → Type 0
AreWritable [] = Unit
AreWritable (o ∷ os) = IsWritable o × Follows o (encode_all os) × AreWritable os

module _ (net : ByteOrder) where
  after-append : (w : TcpOptionWriter) (xs ys : List ℕ) → after (after w xs) ys ≡ after w (xs ++ ys)
  after-append w xs ys = λ i. record {
    written = append_assoc w.written xs ys i;
    buf =
        (drop-drop (length xs) (length ys) w.buf
            ∙ ap (λ n. drop n w.buf) (sym (length-append xs ys)))
          i;
  }

  write_all_ok :
      (os : List TcpOption) (w : TcpOptionWriter)
      → AreWritable os
      → length (encode_all os) ≤ length w.buf
      → write_all net os w ≡ ok (after w (encode_all os))
  unfolding write_all
  write_all_ok [] w u h =
      ap (λ t. ok (record { written = t; buf = w.buf })) (sym (append-nil w.written))
  write_all_ok (o ∷ os) w (u, f, us) h =
      let total : length (encode o ++ encode_all os) ≡ length (encode o) + length (encode_all os) =
        length-append (encode o) (encode_all os) in
      rw (write_ok net o w u (omega arith)) (
        write_all_ok os (after w (encode o)) us
          (omega (arith, length-drop (length (encode o)) w.buf))
        ∙ ap ok (after-append w (encode o) (encode_all os)))

  collect_ok :
      (os : List TcpOption) (fuel : ℕ)
      → AreWritable os
      → length os < fuel
      → collect net fuel (from_option_bytes (encode_all os)) ≡ ok (os, true)
  unfolding collect
  collect_ok os zero u h = absurd (omega arith)
  collect_ok [] (suc fuel) u h = unfold next in refl
  collect_ok (o ∷ os) (suc fuel) (u, f, us) h =
      rw (read_back net o (encode_all os) u f, collect_ok os fuel us (omega arith))

  -- Options written into a buffer that is large enough are read back in order, the bytes are reported
  -- as valid, and the bytes behind them are untouched and still to be written.
  pub collect-write_all :
      (os : List TcpOption) (buf : List ℕ)
      → AreWritable os
      → length (encode_all os) ≤ length buf
      → (w : TcpOptionWriter) × (write_all net os (from_option_bytes_mut buf) ≡ ok w)
        × (w.buf ≡ drop (length (encode_all os)) buf)
        × (collect net (suc (length os)) (from_option_bytes w.written) ≡ ok (os, true))
  collect-write_all os buf u h = (
    after (from_option_bytes_mut buf) (encode_all os),
    write_all_ok os (from_option_bytes_mut buf) u h,
    refl,
    collect_ok os (suc (length os)) u (omega arith),
  )

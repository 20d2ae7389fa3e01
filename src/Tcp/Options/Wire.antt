-- ===== src/Tcp/Options/Wire.antt =====
-- The options that the writer can write, their bytes on the wire, and the call that writes each.
use rpkt.Base.{
  ℕ, ◌≤◌, List, [], ◌∷◌, ◌++◌, Outcome, ok, panic, length, ◌≡◌, refl, arith, drop, ap, ◌∙◌, sym,
}
use rpkt.Extern.{ByteOrder, IsU16, IsU32}
use rpkt.Wire.Fields.{wire_u16, wire_u32}
use rpkt.Wire.Fill.{
  filled, set_byte_fills, set_range_fills, set_field_u16_fills, set_field_u32_fills,
}
use rpkt.Wire.Fill.{slice_to-filled, slice_from-filled}
use rpkt.Tcp.Options.{TcpOption, eol, nop, sack_perm, mss, wsopt, sack, fo, unknown, ts}
use rpkt.Tcp.Options.Writer
use rpkt.Tcp.Options.Writer.{TcpOptionWriter, split}

abbrev pub encode : TcpOption → List ℕ
encode eol = 0 ∷ []
encode nop = 1 ∷ []
encode sack_perm = 4 ∷ 2 ∷ []
encode (mss v) = 2 ∷ 4 ∷ wire_u16 v
encode (wsopt v) = 3 ∷ 3 ∷ v ∷ []
encode (ts a b) = 8 ∷ 10 ∷ (wire_u32 a ++ wire_u32 b)
encode (fo cookie) = 34 ∷ 18 ∷ cookie
encode (sack bytes) = bytes
encode (unknown bytes) = bytes

-- The values that fit their fields. Selective acknowledgements have a writer of their own, and the
-- writer has no call for an unknown option.
abbrev pub IsWritable : TcpOption → Type 0
IsWritable eol = Unit
IsWritable nop = Unit
IsWritable sack_perm = Unit
IsWritable (mss v) = IsU16 v
IsWritable (wsopt v) = Unit
IsWritable (ts a b) = IsU32 a × IsU32 b
IsWritable (fo cookie) = length cookie ≡ 16
IsWritable (sack bytes) = ⊥
IsWritable (unknown bytes) = ⊥

-- What a call that writes `bytes` makes of the writer.
abbrev pub after : TcpOptionWriter → List ℕ → TcpOptionWriter
after w bytes = record { written = w.written ++ bytes; buf = drop (length bytes) w.buf }

split-filled :
    (w : TcpOptionWriter) (front : List ℕ) (n : ℕ)
    → length front ≡ n
    → n ≤ length w.buf
    → split w (filled front n w.buf) n
      ≡ ok (record { written = w.written ++ front; buf = drop n w.buf })
unfolding split
split-filled w front n e h =
    rw (slice_to-filled w.buf front n e h, slice_from-filled w.buf front n e h)

module _ (net : ByteOrder) where
  unfoldable pub write : TcpOption → TcpOptionWriter → Outcome TcpOptionWriter
  write eol w = Writer.eol w
  write nop w = Writer.nop w
  write sack_perm w = Writer.sack_perm w
  write (mss v) w = Writer.mss net w v
  write (wsopt v) w = Writer.wsopt w v
  write (ts a b) w = Writer.ts net w a b
  write (fo cookie) w = Writer.fo w cookie
  write (sack bytes) w = panic
  write (unknown bytes) w = panic

  -- Each call writes the bytes of its option in front and splits them off; it does not panic if they
  -- fit.
  pub write_ok :
      (o : TcpOption) (w : TcpOptionWriter)
      → IsWritable o
      → length (encode o) ≤ length w.buf
      → write o w ≡ ok (after w (encode o))
  unfolding write Writer.eol Writer.nop Writer.sack_perm Writer.mss Writer.wsopt Writer.ts Writer.fo
  write_ok eol w v h = rw (set_byte_fills w.buf [] 0 refl 0 h) (split-filled w _ 1 refl h)
  write_ok nop w v h = rw (set_byte_fills w.buf [] 0 refl 1 h) (split-filled w _ 1 refl h)
  write_ok sack_perm w v h =
      rw (set_byte_fills w.buf [] 0 refl 4 (omega arith), set_byte_fills w.buf (4 ∷ []) 1 refl 2 h)
        (split-filled w _ 2 refl h)
  write_ok (mss v) w u h =
      rw
        (
          set_byte_fills w.buf [] 0 refl 2 (omega arith),
          set_byte_fills w.buf (2 ∷ []) 1 refl 4 (omega arith),
          set_field_u16_fills w.buf (2 ∷ 4 ∷ []) 2 refl net v h,
        )
        (split-filled w _ 4 refl h)
  write_ok (wsopt v) w u h =
      rw
        (
          set_byte_fills w.buf [] 0 refl 3 (omega arith),
          set_byte_fills w.buf (3 ∷ []) 1 refl 3 (omega arith),
          set_byte_fills w.buf (3 ∷ 3 ∷ []) 2 refl v h,
        )
        (split-filled w _ 3 refl h)
  write_ok (ts a b) w u h =
      rw
        (
          set_byte_fills w.buf [] 0 refl 8 (omega arith),
          set_byte_fills w.buf (8 ∷ []) 1 refl 10 (omega arith),
          set_field_u32_fills w.buf (8 ∷ 10 ∷ []) 2 refl net a (omega arith),
          set_field_u32_fills w.buf (8 ∷ 10 ∷ wire_u32 a) 6 refl net b h,
        )
        (split-filled w _ 10 refl h)
  write_ok (fo cookie) w u h =
      let e : length (34 ∷ 18 ∷ cookie) ≡ 18 = omega arith in
      rw
        (
          set_byte_fills w.buf [] 0 refl 34 (omega arith),
          set_byte_fills w.buf (34 ∷ []) 1 refl 18 (omega arith),
          set_range_fills w.buf (34 ∷ 18 ∷ []) 2 refl 18 cookie (omega arith) (omega arith),
        )
        (split-filled w (34 ∷ 18 ∷ cookie) 18 e (omega arith)
          ∙ ap
              (λ (n : ℕ).
                ok (record { written = w.written ++ (34 ∷ 18 ∷ cookie); buf = drop n w.buf }))
              (sym e))
  write_ok (sack bytes) w u h = absurd u
  write_ok (unknown bytes) w u h = absurd u

-- ===== src/Ipv4/Options/Wire.antt =====
-- The calls of `Ipv4OptionWriter`, the bytes on the wire that each writes, and what the reader makes of
-- them.
use rpkt.Base.{ℕ, ◌-◌, ◌≤◌, ◌%◌, true, List, [], ◌∷◌, ◌++◌, replicate}
use rpkt.Base.{Outcome, ok, ◌>>=◌, length, take, drop, ◌≡◌, refl, arith, ap, sym}
use rpkt.Base.{length-zero, length-take, length-replicate, length-drop, drop-drop, drop-take}
use rpkt.Extern.{ByteOrder}
use rpkt.Wire.{set_byte, set_range}
use rpkt.Wire.Fields.{wire_u16}
use rpkt.Wire.Fill.{
  filled, length-filled, set_byte_fills, set_range_fills, set_field_u16_fills, slice_to-filled,
  slice_from-filled,
}
use rpkt.Wire.Laws.{slice_from_ok, slice_to_ok}
use rpkt.Ipv4.Options.{Ipv4Option, eol, nop, ts, rr, ra, ts_len_valid, rr_len_valid}
use rpkt.Ipv4.Options.Writer
use rpkt.Ipv4.Options.Writer.{Ipv4OptionWriter, from_option_bytes_mut, close, split}
use rpkt.Ipv4.Options.Fields.{set_alert_value}

-- The calls of a writer. `alert` writes its value into the option that `ra` gives.
pub data Request : Type 0 where
  end_list no_op : Request
  stamps route alert : ℕ → Request

abbrev pub encode : Request → List ℕ
encode end_list = 0 ∷ []
encode no_op = 1 ∷ []
encode (stamps len) = 68 ∷ len ∷ 5 ∷ replicate (len - 3) 0
encode (route len) = 7 ∷ len ∷ 4 ∷ replicate (len - 3) 0
encode (alert value) = 148 ∷ 4 ∷ wire_u16 value

abbrev pub option : Request → Ipv4Option
option end_list = eol
option no_op = nop
option (stamps len) = ts (encode (stamps len))
option (route len) = rr (encode (route len))
option (alert value) = ra (encode (alert value))

abbrev pub IsWritable : Request → Type 0
IsWritable end_list = Unit {0}
IsWritable no_op = Unit {0}
IsWritable (stamps len) = ts_len_valid len ≡ true
IsWritable (route len) = rr_len_valid len ≡ true
IsWritable (alert value) = Unit {0}

-- An end of list stands last.
abbrev pub Follows : Request → List ℕ → Type 0
Follows end_list rest = length rest ≡ 0
Follows _ rest = Unit {0}

abbrev pub after : Ipv4OptionWriter → List ℕ → Ipv4OptionWriter
after w bytes = record { written = w.written ++ bytes; buf = drop (length bytes) w.buf }

split-filled :
    (w : Ipv4OptionWriter) (front : List ℕ) (n : ℕ)
    → length front ≡ n
    → n ≤ length w.buf
    → split w (filled front n w.buf) n ≡ ok (front, record w { buf = drop n w.buf })
unfolding split
split-filled w front n e h =
    rw (slice_to-filled w.buf front n e h, slice_from-filled w.buf front n e h)

split_ok :
    (w : Ipv4OptionWriter) (bytes : List ℕ) (n : ℕ)
    → n ≤ length bytes
    → split w bytes n ≡ ok (take n bytes, record w { buf = drop n bytes })
unfolding split
split_ok w bytes n h = rw (slice_to_ok bytes n h, slice_from_ok bytes n h)

module _ (net : ByteOrder) where
  unfoldable pub write : Request → Ipv4OptionWriter → Outcome Ipv4OptionWriter
  write end_list w = Writer.eol w
  write no_op w = Writer.nop w
  write (stamps len) w = Writer.ts w len >>= λ s. ok (close s)
  write (route len) w = Writer.rr w len >>= λ s. ok (close s)
  write (alert value) w =
      Writer.ra w >>= λ s. set_alert_value net s.0 value >>= λ bytes. ok (close (bytes, s.1))

  -- A timestamp or a recorded route of `len` bytes.
  write_long :
      (w : Ipv4OptionWriter) (kind pointer len : ℕ)
      → 3 ≤ len
      → len ≤ 40
      → len ≤ length w.buf
      → (set_byte w.buf 0 kind >>= λ b. set_byte b 1 (len % 256) >>= λ b.
          set_byte b 2 pointer >>= λ b.
          set_range b 3 len (replicate (len - 3) 0) >>= λ b. split w b len)
        ≡ ok (kind ∷ len ∷ pointer ∷ replicate (len - 3) 0, record w { buf = drop len w.buf })
  write_long w kind pointer len h3 h40 h =
      let front : List ℕ = kind ∷ len ∷ pointer ∷ replicate (len - 3) 0 in
      let small : len % 256 ≡ len = omega arith in
      let zs : List ℕ = replicate (len - 3) 0 in
      let zeros : length zs ≡ len - 3 = length-replicate (len - 3) 0 in
      rw
        (
          small,
          set_byte_fills w.buf [] 0 refl kind (omega arith),
          set_byte_fills w.buf (kind ∷ []) 1 refl len (omega arith),
          set_byte_fills w.buf (kind ∷ len ∷ []) 2 refl pointer (omega arith),
          set_range_fills w.buf (kind ∷ len ∷ pointer ∷ []) 3 refl len (replicate (len - 3) 0)
              (omega arith) h,
        )
        (split-filled w front len (omega arith) h)

  -- Each call writes the bytes of its option in front and splits them off; it does not panic if they
  -- fit.
  pub write_ok :
      (o : Request) (w : Ipv4OptionWriter)
      → IsWritable o
      → length (encode o) ≤ length w.buf
      → write o w ≡ ok (after w (encode o))
  unfolding write Writer.eol Writer.nop Writer.ts Writer.rr Writer.ra set_alert_value
  write_ok end_list w v h =
      rw (set_byte_fills w.buf [] 0 refl 0 h, split-filled w (0 ∷ []) 1 refl h)
  write_ok no_op w v h = rw (set_byte_fills w.buf [] 0 refl 1 h, split-filled w (1 ∷ []) 1 refl h)
  write_ok (stamps len) w v h =
      let zs : List ℕ = replicate (len - 3) 0 in
      let zeros : length zs ≡ len - 3 = length-replicate (len - 3) 0 in
      let h4 : 4 ≤ len = ground arith in
      let h40 : len ≤ 40 = ground arith in
      rw (v, write_long w 68 5 len (omega arith) h40 (omega arith))
        (ap
          (λ (n : ℕ).
            ok (record { written = w.written ++ encode (stamps len); buf = drop n w.buf }))
          {x = len} {y = length (encode (stamps len))} (omega arith))
  write_ok (route len) w v h =
      let zs : List ℕ = replicate (len - 3) 0 in
      let zeros : length zs ≡ len - 3 = length-replicate (len - 3) 0 in
      let h3 : 3 ≤ len = ground arith in
      let h40 : len ≤ 40 = ground arith in
      rw (v, write_long w 7 4 len h3 h40 (omega arith))
        (ap
          (λ (n : ℕ). ok (record { written = w.written ++ encode (route len); buf = drop n w.buf }))
          {x = len} {y = length (encode (route len))} (omega arith))
  write_ok (alert value) w v h =
      let head : List ℕ = 148 ∷ 4 ∷ [] in
      let b : List ℕ = filled head 2 w.buf in
      let front : take 4 b ≡ filled head 2 (take 4 w.buf) =
        ap (λ z. 148 ∷ 4 ∷ z) (sym (drop-take 2 2 w.buf)) in
      let four : length (take 4 w.buf) ≡ 4 = omega (arith, length-take 4 w.buf) in
      let size : length b ≡ length w.buf = length-filled w.buf head 2 refl (omega arith) in
      let none : drop 4 (take 4 w.buf) ≡ [] =
        length-zero (drop 4 (take 4 w.buf)) (omega (arith, length-drop 4 (take 4 w.buf))) in
      rw
        (
          set_byte_fills w.buf [] 0 refl 148 (omega arith),
          set_byte_fills w.buf (148 ∷ []) 1 refl 4 (omega arith),
          split_ok w b 4 (omega arith),
          front,
          set_field_u16_fills (take 4 w.buf) head 2 refl net value (omega arith),
          none,
        )
        (ap (λ z. ok (record { written = w.written ++ encode (alert value); buf = z }))
          (drop-drop 2 2 w.buf))

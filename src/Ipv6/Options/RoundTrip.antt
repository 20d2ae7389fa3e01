-- ===== src/Ipv6/Options/RoundTrip.antt =====
-- What `Ipv6OptionWriter` writes, `Ipv6OptionIter` reads back.
use rpkt.Base.{
  ℕ, ◌+◌, ◌-◌, ◌≤◌, ◌<◌, ◌%◌, ◌==◌, lt→ltb, false, List, [], ◌∷◌, ◌++◌, replicate, some,
}
use rpkt.Base.{
  Outcome, ok, ◌>>=◌, length, take, drop, ◌≡◌, refl, arith, le→ltb, le→leb, ap, ◌∙◌, append-nil,
}
use rpkt.Base.{length-zero, length-append, length-replicate, length-drop, take_prefix, drop_prefix}
use rpkt.Wire.{splice}
use rpkt.Wire.Fill.{filled, set_byte_fills, set_range_fills, slice_to-filled, slice_from-filled}
use rpkt.Wire.Laws.{slice_to_ok, byte_at_ok, set_range_ok}
use rpkt.Ipv6.Options.{
  Ipv6Option, pad0, padn, generic, from_option_bytes, read_long, read_option, next, option_data_len,
  set_option_data,
}
use rpkt.Ipv6.Options.Reader.{found_ok}
use rpkt.Ipv6.Options.Writer
use rpkt.Ipv6.Options.Writer.{Ipv6OptionWriter, from_option_bytes_mut, close, split}

-- The calls of a writer. `with_data` writes its bytes into the option that `generic` gives.
pub data Request : Type 0 where
  one_pad : Request
  pads : ℕ → Request
  with_data : ℕ → List ℕ → Request

abbrev pub encode : Request → List ℕ
encode one_pad = 0 ∷ []
encode (pads len) = 1 ∷ (len - 2) ∷ replicate (len - 2) 0
encode (with_data kind bytes) = kind ∷ length bytes ∷ bytes

abbrev pub option : Request → Ipv6Option
option one_pad = pad0
option (pads len) = padn
option (with_data kind bytes) = generic (encode (with_data kind bytes))

abbrev pub IsWritable : Request → Type 0
IsWritable one_pad = Unit {0}
IsWritable (pads len) = (2 ≤ len) × (len ≤ 257)
IsWritable (with_data kind bytes) = (1 < kind) × (length bytes < 256)

abbrev pub after : Ipv6OptionWriter → List ℕ → Ipv6OptionWriter
after w bytes = record { written = w.written ++ bytes; buf = drop (length bytes) w.buf }

split-filled :
    (w : Ipv6OptionWriter) (front : List ℕ) (n : ℕ)
    → length front ≡ n
    → n ≤ length w.buf
    → split w (filled front n w.buf) n ≡ ok (front, record w { buf = drop n w.buf })
unfolding split
split-filled w front n e h =
    rw (slice_to-filled w.buf front n e h, slice_from-filled w.buf front n e h)

unfoldable pub write : Request → Ipv6OptionWriter → Outcome Ipv6OptionWriter
write one_pad w = Writer.pad0 w
write (pads len) w = Writer.padn w len
write (with_data kind bytes) w = Writer.generic w kind (length bytes + 2) >>= λ s.
    set_option_data s.0 bytes >>= λ filled_in. ok (close (filled_in, s.1))

generic_ok :
    (w : Ipv6OptionWriter) (kind n : ℕ)
    → n < 256
    → n + 2 ≤ length w.buf
    → Writer.generic w kind (n + 2)
      ≡ ok (kind ∷ n ∷ replicate n 0, record w { buf = drop (n + 2) w.buf })
unfolding Writer.generic
generic_ok w kind n small h =
    let front : List ℕ = kind ∷ n ∷ replicate n 0 in
    let zs : List ℕ = replicate n 0 in
    let zeros : length zs ≡ n = length-replicate n 0 in
    let two : n + 2 - 2 ≡ n = omega arith in
    let byte : n % 256 ≡ n = omega arith in
    rw
      (
        le→leb 2 (n + 2) (omega arith),
        le→leb (n + 2) 257 (omega arith),
        le→leb (n + 2) (length w.buf) h,
        two,
        byte,
        set_byte_fills w.buf [] 0 refl kind (omega arith),
        set_byte_fills w.buf (kind ∷ []) 1 refl n (omega arith),
        set_range_fills w.buf (kind ∷ n ∷ []) 2 refl (n + 2) zs (omega arith) h,
      )
      (split-filled w front (n + 2) (omega arith) h)

set_option_data_ok :
    (kind : ℕ) (bytes : List ℕ)
    → set_option_data (kind ∷ length bytes ∷ replicate (length bytes) 0) bytes
      ≡ ok (kind ∷ length bytes ∷ bytes)
unfolding set_option_data option_data_len splice
set_option_data_ok kind bytes =
    let n : ℕ = length bytes in
    let zs : List ℕ = replicate n 0 in
    let buf : List ℕ = kind ∷ n ∷ zs in
    let zeros : length zs ≡ n = length-replicate n 0 in
    let none : drop (2 + n) buf ≡ [] =
      length-zero (drop (2 + n) buf) (omega (arith, length-drop (2 + n) buf)) in
    rw
      (byte_at_ok buf 1 (omega arith), set_range_ok buf 2 (n + 2) bytes (omega arith) (omega arith))
      (ap (λ z. ok (kind ∷ n ∷ (bytes ++ z))) none ∙ ap (λ z. ok (kind ∷ n ∷ z)) (append-nil bytes))

-- Each call writes the bytes of its option in front and splits them off; it does not panic if they fit.
pub write_ok :
    (o : Request) (w : Ipv6OptionWriter)
    → IsWritable o
    → length (encode o) ≤ length w.buf
    → write o w ≡ ok (after w (encode o))
unfolding write Writer.pad0 Writer.padn
write_ok one_pad w v h = rw (
  lt→ltb 0 (length w.buf) (omega arith),
  set_byte_fills w.buf [] 0 refl 0 h,
  split-filled w (0 ∷ []) 1 refl h,
)
write_ok (pads len) w v h =
    let n : ℕ = len - 2 in
    let zs : List ℕ = replicate n 0 in
    let zeros : length zs ≡ n = length-replicate n 0 in
    let whole : len ≡ n + 2 = omega arith in
    ap (λ (k : ℕ). Writer.generic w 1 k >>= λ s. ok (close s)) whole
    ∙ rw (generic_ok w 1 n (omega arith) (omega arith)) (
        ap (λ (k : ℕ). ok (record { written = w.written ++ encode (pads len); buf = drop k w.buf }))
          {x = n + 2} {y = length (encode (pads len))} (omega arith))
write_ok (with_data kind bytes) w v h =
    let n : ℕ = length bytes in
    rw (generic_ok w kind n (omega arith) (omega arith), set_option_data_ok kind bytes)
      (ap
        (λ (k : ℕ).
          ok (record { written = w.written ++ encode (with_data kind bytes); buf = drop k w.buf }))
        {x = n + 2} {y = length (encode (with_data kind bytes))} (omega arith))

next-read_option :
    (kind : ℕ) (buf : List ℕ)
    → next (from_option_bytes (kind ∷ buf)) ≡ read_option kind (kind ∷ buf)
unfolding next
next-read_option kind buf = ground (arith, byte_at_ok (kind ∷ buf) 0 (omega arith))

pub read_back :
    (o : Request) (rest : List ℕ)
    → IsWritable o
    → next (from_option_bytes (encode o ++ rest)) ≡ ok (some (option o), from_option_bytes rest)
unfolding read_option read_long
read_back one_pad rest u = next-read_option 0 rest ∙ found_ok (0 ∷ rest) 1 pad0 (omega arith)
read_back (pads len) rest u =
    let n : ℕ = len - 2 in
    let zs : List ℕ = replicate n 0 in
    let front : List ℕ = encode (pads len) in
    let buf : List ℕ = front ++ rest in
    let zeros : length zs ≡ n = length-replicate n 0 in
    let long : n + 2 ≤ length buf = omega (arith, length-append zs rest) in
    next-read_option 1 (n ∷ (zs ++ rest))
    ∙ rw
        (
          le→ltb 2 (length buf) (omega arith),
          byte_at_ok buf 1 (omega arith),
          le→ltb (n + 2) (length buf) long,
        )
        (found_ok buf (n + 2) padn long
          ∙ ap (λ z. ok (some padn, from_option_bytes z))
              (drop_prefix (n + 2) front rest (omega arith)))
read_back (with_data kind bytes) rest u =
    let n : ℕ = length bytes in
    let front : List ℕ = encode (with_data kind bytes) in
    let buf : List ℕ = front ++ rest in
    let long : n + 2 ≤ length buf = omega (arith, length-append bytes rest) in
    let ne0 : (kind == 0) ≡ false = ground arith in
    let ne1 : (kind == 1) ≡ false = ground arith in
    next-read_option kind (n ∷ (bytes ++ rest))
    ∙ rw
        (
          ne0,
          ne1,
          le→ltb 2 (length buf) (omega arith),
          byte_at_ok buf 1 (omega arith),
          le→ltb (n + 2) (length buf) long,
          slice_to_ok buf (n + 2) long,
        )
        (found_ok buf (n + 2) (generic (take (n + 2) buf)) long
          ∙ ap (λ z. ok (some (generic z), from_option_bytes (drop (n + 2) buf)))
              (take_prefix (n + 2) front rest (omega arith))
          ∙ ap (λ z. ok (some (generic front), from_option_bytes z))
              (drop_prefix (n + 2) front rest (omega arith)))

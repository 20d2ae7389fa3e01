-- ===== src/Ipv6/Options/Writer.antt =====
-- rpkt/src/ipv6/extentions/option.rs: `Ipv6OptionWriter`. `buf` is what is still to be written, and
-- `written` what the calls before have split off from the front of the caller's buffer.
use rpkt.Base.{
  ℕ, ◌-◌, ◌%◌, leb, ltb, ◌&&◌, List, [], ◌++◌, replicate, Outcome, ok, ◌>>=◌, ◌>>◌, assert, length,
}
use rpkt.Wire.{slice_to, slice_from, set_byte, set_range}
use rpkt.Ipv6.Options.{pad0_type, padn_type}

pub record Ipv6OptionWriter : Type 0 where
  pub written : List ℕ
  pub buf : List ℕ

abbrev pub from_option_bytes_mut : List ℕ → Ipv6OptionWriter
from_option_bytes_mut buf = record { written = []; buf = buf }

pub remaining_bytes : Ipv6OptionWriter → ℕ
remaining_bytes w = length w.buf

-- The bytes of an option are the caller's until the borrow ends; `close` then gives them back.
abbrev pub close : List ℕ × Ipv6OptionWriter → Ipv6OptionWriter
close s = record { written = s.1.written ++ s.0; buf = s.1.buf }

-- `split_at_mut(n)` on the buffer after the writes.
unfoldable pub split : Ipv6OptionWriter → List ℕ → ℕ → Outcome (List ℕ × Ipv6OptionWriter)
split w bytes n = do
  front ← slice_to bytes n
  rest ← slice_from bytes n
  ok (front, record w { buf = rest })

unfoldable pub pad0 : Ipv6OptionWriter → Outcome Ipv6OptionWriter
pad0 w = do
  assert (ltb 0 (length w.buf))
  b ← set_byte w.buf 0 pad0_type
  s ← split w b 1
  ok (close s)

unfoldable pub generic : Ipv6OptionWriter → ℕ → ℕ → Outcome (List ℕ × Ipv6OptionWriter)
generic w opt_type opt_len = do
  assert (leb 2 opt_len && leb opt_len 257 && leb opt_len (length w.buf))
  b ← set_byte w.buf 0 opt_type
  b ← set_byte b 1 ((opt_len - 2) % 256)
  b ← set_range b 2 opt_len (replicate (opt_len - 2) 0)
  split w b opt_len

-- `padn` writes what `generic` writes for its type.
unfoldable pub padn : Ipv6OptionWriter → ℕ → Outcome Ipv6OptionWriter
padn w opt_len = generic w padn_type opt_len >>= λ s. ok (close s)

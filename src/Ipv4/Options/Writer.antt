-- ===== src/Ipv4/Options/Writer.antt =====
-- rpkt/src/ipv4/option.rs: `Ipv4OptionWriter`. `buf` is what is still to be written, and `written` what
-- the calls before have split off from the front of the caller's buffer.
use rpkt.Base.{ℕ, ◌-◌, ◌%◌, List, [], ◌++◌, replicate, Outcome, ok, ◌>>=◌, ◌>>◌, assert, length}
use rpkt.Wire.{slice_to, slice_from, set_byte, set_range}
use rpkt.Ipv4.Options.{
  end_of_list, nop_type, timestamp, record_route, route_alert, ts_len_valid, rr_len_valid,
}

pub record Ipv4OptionWriter : Type 0 where
  pub written : List ℕ
  pub buf : List ℕ

abbrev pub from_option_bytes_mut : List ℕ → Ipv4OptionWriter
from_option_bytes_mut buf = record { written = []; buf = buf }

pub remaining_bytes : Ipv4OptionWriter → ℕ
remaining_bytes w = length w.buf

-- The bytes of an option are the caller's until the borrow ends; `close` then gives them back.
abbrev pub close : List ℕ × Ipv4OptionWriter → Ipv4OptionWriter
close s = record { written = s.1.written ++ s.0; buf = s.1.buf }

-- `split_at_mut(n)` on the buffer after the writes.
unfoldable pub split : Ipv4OptionWriter → List ℕ → ℕ → Outcome (List ℕ × Ipv4OptionWriter)
split w bytes n = do
  front ← slice_to bytes n
  rest ← slice_from bytes n
  ok (front, record w { buf = rest })

unfoldable pub eol : Ipv4OptionWriter → Outcome Ipv4OptionWriter
eol w = do b ← set_byte w.buf 0 end_of_list; s ← split w b 1; ok (close s)

unfoldable pub nop : Ipv4OptionWriter → Outcome Ipv4OptionWriter
nop w = do b ← set_byte w.buf 0 nop_type; s ← split w b 1; ok (close s)

unfoldable pub ts : Ipv4OptionWriter → ℕ → Outcome (List ℕ × Ipv4OptionWriter)
ts w len = do
  assert (ts_len_valid len)
  b ← set_byte w.buf 0 timestamp
  b ← set_byte b 1 (len % 256)
  b ← set_byte b 2 5
  b ← set_range b 3 len (replicate (len - 3) 0)
  split w b len

unfoldable pub rr : Ipv4OptionWriter → ℕ → Outcome (List ℕ × Ipv4OptionWriter)
rr w len = do
  assert (rr_len_valid len)
  b ← set_byte w.buf 0 record_route
  b ← set_byte b 1 (len % 256)
  b ← set_byte b 2 4
  b ← set_range b 3 len (replicate (len - 3) 0)
  split w b len

unfoldable pub ra : Ipv4OptionWriter → Outcome (List ℕ × Ipv4OptionWriter)
ra w = do b ← set_byte w.buf 0 route_alert; b ← set_byte b 1 4; split w b 4

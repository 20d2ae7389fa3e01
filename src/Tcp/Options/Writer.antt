-- ===== src/Tcp/Options/Writer.antt =====
-- rpkt/src/tcp/option.rs: `TcpOptionWriter`. `buf` is what is still to be written, and `written` what
-- the calls before have split off from the front of the caller's buffer.
use rpkt.Base.{
  ℕ, ◌+◌, ◌*◌, ◌-◌, ◌/◌, ◌%◌, ◌^◌, leb, ltb, List, [], ◌++◌, Outcome, ok, ◌>>=◌, ◌>>◌, assert,
  length,
}
use rpkt.Extern.{ByteOrder}
use rpkt.Wire.{
  slice_to, slice_from, set_byte, set_field_u16, set_field_u32, set_range, byte_at, field_u32,
}
use rpkt.Tcp.Options.{end_of_list, nop_kind, max_seg_size, window_scale, sack_permitted}
use rpkt.Tcp.Options.{selective_ack, timestamps, tcp_fastopen}

pub record TcpOptionWriter : Type 0 where
  pub written : List ℕ
  pub buf : List ℕ

abbrev pub from_option_bytes_mut : List ℕ → TcpOptionWriter
from_option_bytes_mut buf = record { written = []; buf = buf }

pub remaining_bytes : TcpOptionWriter → ℕ
remaining_bytes w = length w.buf

-- `split_at_mut(n)` on the buffer after the writes: its front is done.
unfoldable pub split : TcpOptionWriter → List ℕ → ℕ → Outcome TcpOptionWriter
split w bytes n = do
  front ← slice_to bytes n
  rest ← slice_from bytes n
  ok (record { written = w.written ++ front; buf = rest })

unfoldable pub eol : TcpOptionWriter → Outcome TcpOptionWriter
eol w = do b ← set_byte w.buf 0 end_of_list; split w b 1

unfoldable pub nop : TcpOptionWriter → Outcome TcpOptionWriter
nop w = do b ← set_byte w.buf 0 nop_kind; split w b 1

unfoldable pub wsopt : TcpOptionWriter → ℕ → Outcome TcpOptionWriter
wsopt w value = do
  b ← set_byte w.buf 0 window_scale
  b ← set_byte b 1 3
  b ← set_byte b 2 value
  split w b 3

unfoldable pub sack_perm : TcpOptionWriter → Outcome TcpOptionWriter
sack_perm w = do b ← set_byte w.buf 0 sack_permitted; b ← set_byte b 1 2; split w b 2

unfoldable pub fo : TcpOptionWriter → List ℕ → Outcome TcpOptionWriter
fo w cookie = do
  b ← set_byte w.buf 0 tcp_fastopen
  b ← set_byte b 1 18
  b ← set_range b 2 18 cookie
  split w b 18

module _ (net : ByteOrder) where
  unfoldable pub mss : TcpOptionWriter → ℕ → Outcome TcpOptionWriter
  mss w value = do
    b ← set_byte w.buf 0 max_seg_size
    b ← set_byte b 1 4
    b ← set_field_u16 net 2 4 b value
    split w b 4

  unfoldable pub ts : TcpOptionWriter → ℕ → ℕ → Outcome TcpOptionWriter
  ts w stamp echo = do
    b ← set_byte w.buf 0 timestamps
    b ← set_byte b 1 10
    b ← set_field_u32 net 2 6 b stamp
    b ← set_field_u32 net 6 10 b echo
    split w b 10

-- `sack` hands out the bytes of the option, which the caller fills by `set_block`; `close` gives them
-- back when that borrow ends.
unfoldable pub sack : TcpOptionWriter → ℕ → Outcome (List ℕ × TcpOptionWriter)
sack w num_blocks = do
  assert (leb num_blocks 4)
  b ← set_byte w.buf 0 selective_ack
  b ← set_byte b 1 ((2 + num_blocks * 8) % 256)
  front ← slice_to b (2 + num_blocks * 8)
  rest ← slice_from b (2 + num_blocks * 8)
  ok (front, record w { buf = rest })

abbrev pub close : List ℕ × TcpOptionWriter → TcpOptionWriter
close s = record { written = s.1.written ++ s.0; buf = s.1.buf }

-- `TcpOptionSack`. `usize::from(buf[1]) - 2` wraps below 2.
unfoldable pub num_blocks : List ℕ → Outcome ℕ
num_blocks bytes = byte_at bytes 1 >>= λ len. ok ((len + 2 ^ 64 - 2) % 2 ^ 64 / 8)

module _ (net : ByteOrder) where
  unfoldable pub block : List ℕ → ℕ → Outcome (ℕ × ℕ)
  block bytes idx = do
    n ← num_blocks bytes
    assert (ltb idx n)
    left ← field_u32 net (2 + 8 * idx) (6 + 8 * idx) bytes
    right ← field_u32 net (6 + 8 * idx) (10 + 8 * idx) bytes
    ok (left, right)

  unfoldable pub set_block : List ℕ → ℕ → ℕ × ℕ → Outcome (List ℕ)
  set_block bytes idx edges = do
    n ← num_blocks bytes
    assert (ltb idx n)
    b ← set_field_u32 net (2 + 8 * idx) (6 + 8 * idx) bytes edges.0
    set_field_u32 net (6 + 8 * idx) (10 + 8 * idx) b edges.1

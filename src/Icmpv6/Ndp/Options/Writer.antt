-- ===== src/Icmpv6/Ndp/Options/Writer.antt =====
-- rpkt/src/icmpv6/ndp/option.rs: `NdpOptionWriter`. `buf` is what is still to be written, and `written`
-- what the calls before have split off from the front of the caller's buffer. Each call gives the bytes
-- of its option with the writer.
use rpkt.Base.{
  ℕ, ◌/◌, ◌%◌, ◌^◌, leb, ltb, ◌==◌, ◌&&◌, List, [], replicate, Outcome, ok, ◌>>=◌, ◌>>◌,
}
use rpkt.Base.{assert, length}
use rpkt.Extern.{ByteOrder}
use rpkt.Wire.{slice_to, slice_from, set_byte, set_range}
use rpkt.Icmpv6.Ndp.Options.{
  src_link_addr_type, dst_link_addr_type, prefix_info_type, redirected_hdr_type, mtu_type,
}
use rpkt.Icmpv6.Ndp.Options.Fields.{set_link_addr, set_mtu}

pub record NdpOptionWriter : Type 0 where
  pub written : List ℕ
  pub buf : List ℕ

abbrev pub from_option_bytes_mut : List ℕ → NdpOptionWriter
from_option_bytes_mut buf = record { written = []; buf = buf }

pub remaining_bytes : NdpOptionWriter → ℕ
remaining_bytes w = length w.buf

-- `self.buf[0] = opt_type; self.buf[1] = len` and `split_at_mut(n)`.
unfoldable pub start : NdpOptionWriter → ℕ → ℕ → ℕ → Outcome (List ℕ × NdpOptionWriter)
start w opt_type len n = do
  typed ← set_byte w.buf 0 opt_type
  sized ← set_byte typed 1 len
  front ← slice_to sized n
  rest ← slice_from sized n
  ok (front, record w { buf = rest })

unfoldable pub src_link_addr : NdpOptionWriter → Outcome (List ℕ × NdpOptionWriter)
src_link_addr w = do
  assert (ltb 8 (length w.buf))
  (front, rest) ← start w src_link_addr_type 1 8
  opt ← set_link_addr front (replicate 6 0)
  ok (opt, rest)

unfoldable pub dst_link_addr : NdpOptionWriter → Outcome (List ℕ × NdpOptionWriter)
dst_link_addr w = do
  assert (ltb 8 (length w.buf))
  (front, rest) ← start w dst_link_addr_type 1 8
  opt ← set_link_addr front (replicate 6 0)
  ok (opt, rest)

unfoldable pub prefix_info : NdpOptionWriter → Outcome (List ℕ × NdpOptionWriter)
prefix_info w = do
  assert (ltb 32 (length w.buf))
  (front, rest) ← start w prefix_info_type 4 32
  opt ← set_range front 2 32 (replicate 30 0)
  ok (opt, rest)

unfoldable pub redirected_hdr : NdpOptionWriter → ℕ → Outcome (List ℕ × NdpOptionWriter)
redirected_hdr w opt_len = do
  assert (ltb opt_len (length w.buf) && ((opt_len % 8 == 0) && (leb 8 opt_len && leb opt_len 2040)))
  (front, rest) ← start w redirected_hdr_type (opt_len / 8 % 2 ^ 8) 8
  opt ← set_range front 2 8 (replicate 6 0)
  ok (opt, rest)

module _ (net : ByteOrder) where
  unfoldable pub mtu : NdpOptionWriter → ℕ → Outcome (List ℕ × NdpOptionWriter)
  mtu w _opt_len = do
    assert (ltb 8 (length w.buf))
    (front, rest) ← start w mtu_type 1 8
    opt ← set_mtu net front 0
    ok (opt, rest)

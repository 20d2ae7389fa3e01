-- ===== src/Ipv6/Header.antt =====
-- rpkt/src/ipv6/header.rs: `Ipv6Header` over the bytes of a buffer. A shift of a `u8` to the left
-- keeps eight bits.
use rpkt.Base.{ℕ, ◌*◌, ◌/◌, ◌%◌, ◌^◌, leb, if◌then◌else◌, ◌==◌, Bool, bit_and, bit_or}
use rpkt.Base.{List, replicate, Outcome, ok, ◌>>=◌, ◌>>◌, assert, length, ◌⊎◌, inl, inr}
use rpkt.Extern.{ByteOrder}
use rpkt.Wire.{slice, set_range, copy_from_slice, byte_at, set_byte, field_u16, set_field_u16}
use rpkt.Wire.{field_u24, set_field_u24}

abbrev pub ipv6_header_len : ℕ
ipv6_header_len = 40

-- An `Ipv6Addr` is its sixteen bytes.
unfoldable pub from_bytes : List ℕ → Outcome (List ℕ)
from_bytes data_ = copy_from_slice (replicate 16 0) data_

-- `Ok` on the left.
unfoldable pub new : List ℕ → List ℕ ⊎ List ℕ
new buf = if leb ipv6_header_len (length buf) then inl buf else inr buf

unfoldable pub as_bytes : List ℕ → Outcome (List ℕ)
as_bytes buf = slice buf 0 ipv6_header_len

unfoldable pub to_owned : List ℕ → Outcome (List ℕ)
to_owned buf = as_bytes buf >>= copy_from_slice (replicate ipv6_header_len 0)

unfoldable pub check_version : List ℕ → Outcome Bool
check_version buf = byte_at buf 0 >>= λ b. ok (b / 2 ^ 4 == 6)

unfoldable pub traffic_class : List ℕ → Outcome ℕ
traffic_class buf = do
  first ← byte_at buf 0
  second ← byte_at buf 1
  ok (bit_or (first * 2 ^ 4 % 2 ^ 8) (second / 2 ^ 4))

-- An `IpProtocol` is its number.
unfoldable pub next_header : List ℕ → Outcome ℕ
next_header buf = byte_at buf 6

unfoldable pub hop_limit : List ℕ → Outcome ℕ
hop_limit buf = byte_at buf 7

unfoldable pub source_ip : List ℕ → Outcome (List ℕ)
source_ip buf = slice buf 8 24 >>= from_bytes

unfoldable pub dest_ip : List ℕ → Outcome (List ℕ)
dest_ip buf = slice buf 24 40 >>= from_bytes

unfoldable pub adjust_version : List ℕ → Outcome (List ℕ)
adjust_version buf = do b ← byte_at buf 0; set_byte buf 0 (bit_or (bit_and b 0x0f) (6 * 2 ^ 4))

unfoldable pub set_traffic_class : List ℕ → ℕ → Outcome (List ℕ)
set_traffic_class buf value = do
  first ← byte_at buf 0
  buf' ← set_byte buf 0 (bit_or (bit_and first 0xf0) (value / 2 ^ 4))
  second ← byte_at buf' 1
  set_byte buf' 1 (bit_or (bit_and second 0x0f) (value * 2 ^ 4 % 2 ^ 8))

unfoldable pub set_next_header : List ℕ → ℕ → Outcome (List ℕ)
set_next_header buf value = set_byte buf 6 value

unfoldable pub set_hop_limit : List ℕ → ℕ → Outcome (List ℕ)
set_hop_limit buf value = set_byte buf 7 value

unfoldable pub set_source_ip : List ℕ → List ℕ → Outcome (List ℕ)
set_source_ip buf value = set_range buf 8 24 value

unfoldable pub set_dest_ip : List ℕ → List ℕ → Outcome (List ℕ)
set_dest_ip buf value = set_range buf 24 40 value

module _ (net : ByteOrder) where
  unfoldable pub flow_label : List ℕ → Outcome ℕ
  flow_label buf = field_u24 net 1 4 buf >>= λ data_. ok (bit_and data_ 0x0fffff)

  unfoldable pub payload_len : List ℕ → Outcome ℕ
  payload_len buf = field_u16 net 4 6 buf

  unfoldable pub set_flow_label : List ℕ → ℕ → Outcome (List ℕ)
  set_flow_label buf value = do
    assert (leb value 0xfffff)
    data_ ← field_u24 net 1 4 buf
    set_field_u24 net 1 4 buf (bit_or (bit_and data_ 0xf00000) value)

  unfoldable pub set_payload_len : List ℕ → ℕ → Outcome (List ℕ)
  set_payload_len buf value = set_field_u16 net 4 6 buf value

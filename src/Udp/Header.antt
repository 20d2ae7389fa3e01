-- ===== src/Udp/Header.antt =====
-- rpkt/src/udp/header.rs: `UdpHeader` over the bytes of a buffer.
use rpkt.Base.{◌>>=◌, ℕ, leb, if◌then◌else◌, List, replicate, Outcome, length, ◌⊎◌, inl, inr}
use rpkt.Extern.{ByteOrder}
use rpkt.Wire.{copy_from_slice, slice, field_u16, set_field_u16}

abbrev pub udp_header_len : ℕ
udp_header_len = 8

abbrev pub udp_header_template : List ℕ
udp_header_template = replicate 8 0

-- `Ok` on the left.
unfoldable pub new : List ℕ → List ℕ ⊎ List ℕ
new buf = if leb udp_header_len (length buf) then inl buf else inr buf

unfoldable pub as_bytes : List ℕ → Outcome (List ℕ)
as_bytes buf = slice buf 0 udp_header_len

unfoldable pub to_owned : List ℕ → Outcome (List ℕ)
to_owned buf = as_bytes buf >>= copy_from_slice (replicate udp_header_len 0)

module _ (net : ByteOrder) where
  unfoldable pub source_port : List ℕ → Outcome ℕ
  source_port buf = field_u16 net 0 2 buf

  unfoldable pub dest_port : List ℕ → Outcome ℕ
  dest_port buf = field_u16 net 2 4 buf

  unfoldable pub packet_len : List ℕ → Outcome ℕ
  packet_len buf = field_u16 net 4 6 buf

  unfoldable pub checksum : List ℕ → Outcome ℕ
  checksum buf = field_u16 net 6 8 buf

  unfoldable pub set_source_port : List ℕ → ℕ → Outcome (List ℕ)
  set_source_port buf value = set_field_u16 net 0 2 buf value

  unfoldable pub set_dest_port : List ℕ → ℕ → Outcome (List ℕ)
  set_dest_port buf value = set_field_u16 net 2 4 buf value

  unfoldable pub set_packet_len : List ℕ → ℕ → Outcome (List ℕ)
  set_packet_len buf value = set_field_u16 net 4 6 buf value

  unfoldable pub set_checksum : List ℕ → ℕ → Outcome (List ℕ)
  set_checksum buf value = set_field_u16 net 6 8 buf value

-- ===== src/Icmpv4/Header.antt =====
-- rpkt/src/icmpv4/header.rs: `Icmpv4Header` over the bytes of a buffer.
use rpkt.Base.{◌>>=◌, ℕ, leb, if◌then◌else◌, List, ◌∷◌, replicate, Outcome, length, ◌⊎◌, inl, inr}
use rpkt.Extern.{ByteOrder}
use rpkt.Wire.{copy_from_slice, slice, set_range, byte_at, set_byte, field_u16, set_field_u16}
use rpkt.Ipv4.Header.{from_bytes}

abbrev pub icmpv4_header_len : ℕ
icmpv4_header_len = 8

abbrev pub icmpv4_header_template : List ℕ
icmpv4_header_template = 8 ∷ replicate 7 0

-- `Ok` on the left.
unfoldable pub new : List ℕ → List ℕ ⊎ List ℕ
new buf = if leb icmpv4_header_len (length buf) then inl buf else inr buf

unfoldable pub as_bytes : List ℕ → Outcome (List ℕ)
as_bytes buf = slice buf 0 icmpv4_header_len

unfoldable pub to_owned : List ℕ → Outcome (List ℕ)
to_owned buf = as_bytes buf >>= copy_from_slice (replicate icmpv4_header_len 0)

-- An `IcmpType` is its number.
unfoldable pub icmp_type : List ℕ → Outcome ℕ
icmp_type buf = byte_at buf 0

unfoldable pub code : List ℕ → Outcome ℕ
code buf = byte_at buf 1

unfoldable pub rest_of_header : List ℕ → Outcome (List ℕ)
rest_of_header buf = slice buf 4 8 >>= copy_from_slice (replicate 4 0)

unfoldable pub ipv4_addr : List ℕ → Outcome (List ℕ)
ipv4_addr buf = slice buf 4 8 >>= from_bytes

unfoldable pub set_icmp_type : List ℕ → ℕ → Outcome (List ℕ)
set_icmp_type buf value = set_byte buf 0 value

unfoldable pub set_code : List ℕ → ℕ → Outcome (List ℕ)
set_code buf value = set_byte buf 1 value

unfoldable pub set_rest_of_header : List ℕ → List ℕ → Outcome (List ℕ)
set_rest_of_header buf value = set_range buf 4 8 value

unfoldable pub set_ipv4_addr : List ℕ → List ℕ → Outcome (List ℕ)
set_ipv4_addr buf value = set_range buf 4 8 value

module _ (net : ByteOrder) where
  unfoldable pub checksum : List ℕ → Outcome ℕ
  checksum buf = field_u16 net 2 4 buf

  unfoldable pub ident : List ℕ → Outcome ℕ
  ident buf = field_u16 net 4 6 buf

  unfoldable pub seq_num : List ℕ → Outcome ℕ
  seq_num buf = field_u16 net 6 8 buf

  unfoldable pub next_hop_mtu : List ℕ → Outcome ℕ
  next_hop_mtu buf = field_u16 net 6 8 buf

  unfoldable pub set_checksum : List ℕ → ℕ → Outcome (List ℕ)
  set_checksum buf value = set_field_u16 net 2 4 buf value

  unfoldable pub set_ident : List ℕ → ℕ → Outcome (List ℕ)
  set_ident buf value = set_field_u16 net 4 6 buf value

  unfoldable pub set_seq_num : List ℕ → ℕ → Outcome (List ℕ)
  set_seq_num buf value = set_field_u16 net 6 8 buf value

  unfoldable pub set_next_hop_mtu : List ℕ → ℕ → Outcome (List ℕ)
  set_next_hop_mtu buf value = set_field_u16 net 6 8 buf value

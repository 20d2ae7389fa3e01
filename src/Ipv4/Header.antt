-- ===== src/Ipv4/Header.antt =====
-- rpkt/src/ipv4/header.rs: `Ipv4Header` over the bytes of a buffer. `!m` is written as the mask of
-- its width less `m`, and a shift to the left keeps the bits of its width.
use rpkt.Base.{
  ℕ, ◌-◌, ◌*◌, ◌/◌, ◌%◌, ◌^◌, leb, ltb, if◌then◌else◌, not, ◌==◌, ◌&&◌, Bool, bit_and, bit_or,
}
use rpkt.Base.{List, ◌∷◌, replicate, Outcome, ok, ◌>>=◌, ◌>>◌, assert, length, ◌⊎◌, inl, inr}
use rpkt.Extern.{ByteOrder}
use rpkt.Wire.{slice, set_range, copy_from_slice, byte_at, set_byte, field_u16, set_field_u16}

abbrev pub ipv4_header_len : ℕ
ipv4_header_len = 20

abbrev pub ipv4_header_template : List ℕ
ipv4_header_template =
    0x45 ∷ 0x00 ∷ 0x00 ∷ 0x14 ∷ 0x00 ∷ 0x00 ∷ 0x40 ∷ 0x00 ∷ 0x00 ∷ 0x11 ∷ replicate 10 0

abbrev pub not_u8 : ℕ → ℕ
not_u8 m = 0xff - m

abbrev pub not_u16 : ℕ → ℕ
not_u16 m = 0xffff - m

-- An `Ipv4Addr` is its four bytes.
unfoldable pub from_bytes : List ℕ → Outcome (List ℕ)
from_bytes bytes = copy_from_slice (replicate 4 0) bytes

unfoldable pub new : List ℕ → List ℕ ⊎ List ℕ
new buf = if leb ipv4_header_len (length buf) then inl buf else inr buf

unfoldable pub as_bytes : List ℕ → Outcome (List ℕ)
as_bytes buf = slice buf 0 ipv4_header_len

unfoldable pub to_owned : List ℕ → Outcome (List ℕ)
to_owned buf = as_bytes buf >>= copy_from_slice (replicate ipv4_header_len 0)

unfoldable pub check_version : List ℕ → Outcome Bool
check_version buf = byte_at buf 0 >>= λ b. ok (b / 2 ^ 4 == 4)

unfoldable pub header_len : List ℕ → Outcome ℕ
header_len buf = byte_at buf 0 >>= λ b. ok (bit_and b 0x0f * 2 ^ 2 % 2 ^ 8)

unfoldable pub dscp : List ℕ → Outcome ℕ
dscp buf = byte_at buf 1 >>= λ b. ok (b / 2 ^ 2)

unfoldable pub ecn : List ℕ → Outcome ℕ
ecn buf = byte_at buf 1 >>= λ b. ok (bit_and b 0x03)

unfoldable pub time_to_live : List ℕ → Outcome ℕ
time_to_live buf = byte_at buf 8

-- An `IpProtocol` is its number.
unfoldable pub protocol : List ℕ → Outcome ℕ
protocol buf = byte_at buf 9

unfoldable pub source_ip : List ℕ → Outcome (List ℕ)
source_ip buf = slice buf 12 16 >>= from_bytes

unfoldable pub dest_ip : List ℕ → Outcome (List ℕ)
dest_ip buf = slice buf 16 20 >>= from_bytes

unfoldable pub adjust_version : List ℕ → Outcome (List ℕ)
adjust_version buf =
    byte_at buf 0 >>= λ b. set_byte buf 0 (bit_or (bit_and b (not_u8 0xf0)) (4 * 2 ^ 4))

unfoldable pub set_header_len : List ℕ → ℕ → Outcome (List ℕ)
set_header_len buf value = do
  assert (leb 20 value && (leb value 60 && (bit_and value 0x03 == 0)))
  b ← byte_at buf 0
  set_byte buf 0 (bit_or (bit_and b (not_u8 0x0f)) (bit_and (value / 2 ^ 2) 0x0f))

unfoldable pub set_dscp : List ℕ → ℕ → Outcome (List ℕ)
set_dscp buf value = do
  assert (ltb value 64)
  b ← byte_at buf 1
  set_byte buf 1 (bit_or (bit_and b (not_u8 0xfc)) (value * 2 ^ 2 % 2 ^ 8))

unfoldable pub set_ecn : List ℕ → ℕ → Outcome (List ℕ)
set_ecn buf value = do
  assert (ltb value 4)
  b ← byte_at buf 1
  set_byte buf 1 (bit_or (bit_and b (not_u8 0x03)) (bit_and value 0x03))

unfoldable pub set_time_to_live : List ℕ → ℕ → Outcome (List ℕ)
set_time_to_live buf value = set_byte buf 8 value

unfoldable pub set_protocol : List ℕ → ℕ → Outcome (List ℕ)
set_protocol buf value = set_byte buf 9 value

unfoldable pub set_source_ip : List ℕ → List ℕ → Outcome (List ℕ)
set_source_ip buf value = set_range buf 12 16 value

unfoldable pub set_dest_ip : List ℕ → List ℕ → Outcome (List ℕ)
set_dest_ip buf value = set_range buf 16 20 value

module _ (net : ByteOrder) where
  unfoldable pub packet_len : List ℕ → Outcome ℕ
  packet_len buf = field_u16 net 2 4 buf

  unfoldable pub ident : List ℕ → Outcome ℕ
  ident buf = field_u16 net 4 6 buf

  unfoldable pub dont_frag : List ℕ → Outcome Bool
  dont_frag buf = field_u16 net 6 8 buf >>= λ raw. ok (not (bit_and raw 0x4000 == 0))

  unfoldable pub more_frags : List ℕ → Outcome Bool
  more_frags buf = field_u16 net 6 8 buf >>= λ raw. ok (not (bit_and raw 0x2000 == 0))

  unfoldable pub frag_offset : List ℕ → Outcome ℕ
  frag_offset buf =
      field_u16 net 6 8 buf >>= λ raw. ok (bit_and raw (not_u16 0xe000) * 2 ^ 3 % 2 ^ 16)

  unfoldable pub checksum : List ℕ → Outcome ℕ
  checksum buf = field_u16 net 10 12 buf

  unfoldable pub set_packet_len : List ℕ → ℕ → Outcome (List ℕ)
  set_packet_len buf value = set_field_u16 net 2 4 buf value

  unfoldable pub set_ident : List ℕ → ℕ → Outcome (List ℕ)
  set_ident buf value = set_field_u16 net 4 6 buf value

  unfoldable pub clear_flags : List ℕ → Outcome (List ℕ)
  clear_flags buf = do
    raw ← field_u16 net 6 8 buf
    set_field_u16 net 6 8 buf (bit_and raw (not_u16 0xe000))

  -- `set_dont_frag` and `set_more_frags`, by their mask.
  unfoldable pub set_flag : ℕ → List ℕ → Bool → Outcome (List ℕ)
  set_flag mask buf value = do
    raw ← field_u16 net 6 8 buf
    set_field_u16 net 6 8 buf (if value then bit_or raw mask else bit_and raw (not_u16 mask))

  unfoldable pub set_dont_frag : List ℕ → Bool → Outcome (List ℕ)
  set_dont_frag buf value = set_flag 0x4000 buf value

  unfoldable pub set_more_frags : List ℕ → Bool → Outcome (List ℕ)
  set_more_frags buf value = set_flag 0x2000 buf value

  unfoldable pub set_frag_offset : List ℕ → ℕ → Outcome (List ℕ)
  set_frag_offset buf value = do
    assert (bit_and value 0x07 == 0)
    raw ← field_u16 net 6 8 buf
    set_field_u16 net 6 8 buf (bit_or (bit_and raw 0xe000) (value / 2 ^ 3))

  unfoldable pub set_checksum : List ℕ → ℕ → Outcome (List ℕ)
  set_checksum buf value = set_field_u16 net 10 12 buf value

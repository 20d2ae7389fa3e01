-- ===== src/Arp/Header.antt =====
-- rpkt/src/arp/header.rs: `ArpHeader` over the bytes of a buffer.
use rpkt.Base.{◌>>=◌, ℕ, leb, if◌then◌else◌, List, ◌∷◌, replicate, Outcome, length, ◌⊎◌, inl, inr}
use rpkt.Extern.{ByteOrder}
use rpkt.Wire.{copy_from_slice, slice, set_range, byte_at, set_byte, field_u16, set_field_u16}

abbrev pub arp_header_len : ℕ
arp_header_len = 28

abbrev pub arp_header_template : List ℕ
arp_header_template = 0 ∷ 1 ∷ 8 ∷ 0 ∷ 6 ∷ 4 ∷ 0 ∷ 1 ∷ replicate 20 0

-- `Ok` on the left.
unfoldable pub new : List ℕ → List ℕ ⊎ List ℕ
new buf = if leb arp_header_len (length buf) then inl buf else inr buf

unfoldable pub as_bytes : List ℕ → Outcome (List ℕ)
as_bytes buf = slice buf 0 arp_header_len

unfoldable pub to_owned : List ℕ → Outcome (List ℕ)
to_owned buf = as_bytes buf >>= copy_from_slice (replicate arp_header_len 0)

unfoldable pub hardware_len : List ℕ → Outcome ℕ
hardware_len buf = byte_at buf 4

unfoldable pub protocol_len : List ℕ → Outcome ℕ
protocol_len buf = byte_at buf 5

unfoldable pub sender_hardware_addr : List ℕ → Outcome (List ℕ)
sender_hardware_addr buf = slice buf 8 14

unfoldable pub sender_protocol_addr : List ℕ → Outcome (List ℕ)
sender_protocol_addr buf = slice buf 14 18

unfoldable pub target_hardware_addr : List ℕ → Outcome (List ℕ)
target_hardware_addr buf = slice buf 18 24

unfoldable pub target_protocol_addr : List ℕ → Outcome (List ℕ)
target_protocol_addr buf = slice buf 24 28

unfoldable pub set_hardware_len : List ℕ → ℕ → Outcome (List ℕ)
set_hardware_len buf value = set_byte buf 4 value

unfoldable pub set_protocol_len : List ℕ → ℕ → Outcome (List ℕ)
set_protocol_len buf value = set_byte buf 5 value

unfoldable pub set_sender_hardware_addr : List ℕ → List ℕ → Outcome (List ℕ)
set_sender_hardware_addr buf value = set_range buf 8 14 value

unfoldable pub set_sender_protocol_addr : List ℕ → List ℕ → Outcome (List ℕ)
set_sender_protocol_addr buf value = set_range buf 14 18 value

unfoldable pub set_target_hardware_addr : List ℕ → List ℕ → Outcome (List ℕ)
set_target_hardware_addr buf value = set_range buf 18 24 value

unfoldable pub set_target_protocol_addr : List ℕ → List ℕ → Outcome (List ℕ)
set_target_protocol_addr buf value = set_range buf 24 28 value

module _ (net : ByteOrder) where
  -- A `Hardware`, an `EtherType` and an `Operation` are their numbers.
  unfoldable pub hardware_type : List ℕ → Outcome ℕ
  hardware_type buf = field_u16 net 0 2 buf

  unfoldable pub protocol_type : List ℕ → Outcome ℕ
  protocol_type buf = field_u16 net 2 4 buf

  unfoldable pub operation : List ℕ → Outcome ℕ
  operation buf = field_u16 net 6 8 buf

  unfoldable pub set_hardware_type : List ℕ → ℕ → Outcome (List ℕ)
  set_hardware_type buf value = set_field_u16 net 0 2 buf value

  unfoldable pub set_protocol_type : List ℕ → ℕ → Outcome (List ℕ)
  set_protocol_type buf value = set_field_u16 net 2 4 buf value

  unfoldable pub set_operation : List ℕ → ℕ → Outcome (List ℕ)
  set_operation buf value = set_field_u16 net 6 8 buf value

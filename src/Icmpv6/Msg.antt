-- ===== src/Icmpv6/Msg.antt =====
-- rpkt/src/icmpv6/msg.rs: the accessors of the messages, over their bytes. `data` of every message
-- starts at byte 8.
use rpkt.Base.{ℕ, Bool, List, Outcome}
use rpkt.Extern.{ByteOrder}
use rpkt.Wire.{slice_from, byte_at, set_byte, field_u16, set_field_u16}
use rpkt.Wire.{field_u32, set_field_u32}
use rpkt.Icmpv6.Bits.{are_zero, fill_zero}

unfoldable pub code : List ℕ → Outcome ℕ
code buf = byte_at buf 1

unfoldable pub check_reserved : List ℕ → Outcome Bool
check_reserved buf = are_zero 4 8 buf

unfoldable pub data_ : List ℕ → Outcome (List ℕ)
data_ buf = slice_from buf 8

unfoldable pub set_code : List ℕ → ℕ → Outcome (List ℕ)
set_code buf value = set_byte buf 1 value

unfoldable pub adjust_reserved : List ℕ → Outcome (List ℕ)
adjust_reserved buf = fill_zero 4 8 buf

module _ (net : ByteOrder) where
  unfoldable pub mtu : List ℕ → Outcome ℕ
  mtu buf = field_u32 net 4 8 buf

  unfoldable pub ptr : List ℕ → Outcome ℕ
  ptr buf = field_u32 net 4 8 buf

  unfoldable pub ident : List ℕ → Outcome ℕ
  ident buf = field_u16 net 4 6 buf

  unfoldable pub seq : List ℕ → Outcome ℕ
  seq buf = field_u16 net 6 8 buf

  unfoldable pub set_mtu : List ℕ → ℕ → Outcome (List ℕ)
  set_mtu buf value = set_field_u32 net 4 8 buf value

  unfoldable pub set_ptr : List ℕ → ℕ → Outcome (List ℕ)
  set_ptr buf value = set_field_u32 net 4 8 buf value

  unfoldable pub set_ident : List ℕ → ℕ → Outcome (List ℕ)
  set_ident buf value = set_field_u16 net 4 6 buf value

  unfoldable pub set_seq : List ℕ → ℕ → Outcome (List ℕ)
  set_seq buf value = set_field_u16 net 6 8 buf value

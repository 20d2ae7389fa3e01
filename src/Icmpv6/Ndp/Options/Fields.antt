-- ===== src/Icmpv6/Ndp/Options/Fields.antt =====
-- rpkt/src/icmpv6/ndp/option.rs: the accessors of the options, over their bytes.
use rpkt.Base.{ℕ, ◌*◌, leb, ◌==◌, Bool, bit_and, List, Outcome, ok, ◌>>=◌, ◌>>◌, assert}
use rpkt.Extern.{ByteOrder}
use rpkt.Wire.{slice, byte_at, set_byte, set_range}
use rpkt.Wire.{field_u32, set_field_u32}
use rpkt.Icmpv6.Bits.{top_flag, flag, set_flag, are_zero, fill_zero}

-- `NdpOptionLinkAddr`
unfoldable pub link_addr : List ℕ → Outcome (List ℕ)
link_addr buf = byte_at buf 1 >>= λ len. slice buf 2 (len * 8)

unfoldable pub set_link_addr : List ℕ → List ℕ → Outcome (List ℕ)
set_link_addr buf addr = byte_at buf 1 >>= λ len. set_range buf 2 (len * 8) addr

-- `NdpOptionPrefixInfo`
unfoldable pub prefix_len : List ℕ → Outcome ℕ
prefix_len buf = byte_at buf 2

unfoldable pub l_flag : List ℕ → Outcome Bool
l_flag buf = top_flag 3 buf

unfoldable pub a_flag : List ℕ → Outcome Bool
a_flag buf = flag 3 6 buf

unfoldable pub check_reserved1 : List ℕ → Outcome Bool
check_reserved1 buf = byte_at buf 3 >>= λ b. ok (bit_and b 0x3f == 0)

unfoldable pub check_reserved2 : List ℕ → Outcome Bool
check_reserved2 buf = are_zero 12 16 buf

unfoldable pub prefix : List ℕ → Outcome (List ℕ)
prefix buf = slice buf 16 32

unfoldable pub set_prefix_len : List ℕ → ℕ → Outcome (List ℕ)
set_prefix_len buf value = assert (leb value 128) >> set_byte buf 2 value

unfoldable pub set_l_flag : List ℕ → Bool → Outcome (List ℕ)
set_l_flag buf value = set_flag 3 7 buf value

unfoldable pub set_a_flag : List ℕ → Bool → Outcome (List ℕ)
set_a_flag buf value = set_flag 3 6 buf value

unfoldable pub adjust_reserved1 : List ℕ → Outcome (List ℕ)
adjust_reserved1 buf = byte_at buf 3 >>= λ b. set_byte buf 3 (bit_and b 0xc0)

unfoldable pub adjust_reserved2 : List ℕ → Outcome (List ℕ)
adjust_reserved2 buf = fill_zero 12 16 buf

unfoldable pub set_prefix : List ℕ → List ℕ → Outcome (List ℕ)
set_prefix buf addr = set_range buf 16 32 addr

-- `NdpOptionRedirectedHdr`
unfoldable pub check_reserved : List ℕ → Outcome Bool
check_reserved buf = are_zero 2 8 buf

unfoldable pub data_ : List ℕ → Outcome (List ℕ)
data_ buf = byte_at buf 1 >>= λ len. slice buf 8 (len * 8)

unfoldable pub adjust_reserved : List ℕ → Outcome (List ℕ)
adjust_reserved buf = fill_zero 2 8 buf

-- The bytes that `data_mut` gives.
unfoldable pub data_mut : List ℕ → Outcome (List ℕ)
data_mut buf = byte_at buf 1 >>= λ len. slice buf 8 (len * 8)

module _ (net : ByteOrder) where
  unfoldable pub valid_lifetime : List ℕ → Outcome ℕ
  valid_lifetime buf = field_u32 net 4 8 buf

  unfoldable pub preferred_lifetime : List ℕ → Outcome ℕ
  preferred_lifetime buf = field_u32 net 8 12 buf

  unfoldable pub set_valid_lifetime : List ℕ → ℕ → Outcome (List ℕ)
  set_valid_lifetime buf value = set_field_u32 net 4 8 buf value

  unfoldable pub set_preferred_lifetime : List ℕ → ℕ → Outcome (List ℕ)
  set_preferred_lifetime buf value = set_field_u32 net 8 12 buf value

  -- `NdpOptionMtu`; its reserved bytes are 2 and 3.
  unfoldable pub mtu : List ℕ → Outcome ℕ
  mtu buf = field_u32 net 4 8 buf

  unfoldable pub set_mtu : List ℕ → ℕ → Outcome (List ℕ)
  set_mtu buf value = set_field_u32 net 4 8 buf value

unfoldable pub check_reserved_mtu : List ℕ → Outcome Bool
check_reserved_mtu buf = are_zero 2 4 buf

unfoldable pub adjust_reserved_mtu : List ℕ → Outcome (List ℕ)
adjust_reserved_mtu buf = fill_zero 2 4 buf

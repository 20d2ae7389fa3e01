-- ===== src/Icmpv6/Ndp/NeighborAdv.antt =====
-- rpkt/src/icmpv6/ndp/mod.rs: `NdpMsgNeighborAdv` over its bytes.
use rpkt.Base.{ℕ, ◌==◌, Bool, bit_and, List, Outcome, ok, ◌>>=◌}
use rpkt.Extern.{ByteOrder}
use rpkt.Wire.{slice, slice_from, set_range}
use rpkt.Wire.{field_u32, set_field_u32}
use rpkt.Icmpv6.Bits.{top_flag, flag, set_flag}

unfoldable pub r_flag : List ℕ → Outcome Bool
r_flag buf = top_flag 4 buf

unfoldable pub s_flag : List ℕ → Outcome Bool
s_flag buf = flag 4 6 buf

unfoldable pub o_flag : List ℕ → Outcome Bool
o_flag buf = flag 4 5 buf

unfoldable pub target_addr : List ℕ → Outcome (List ℕ)
target_addr buf = slice buf 8 24

unfoldable pub option_bytes : List ℕ → Outcome (List ℕ)
option_bytes buf = slice_from buf 24

unfoldable pub set_r_flag : List ℕ → Bool → Outcome (List ℕ)
set_r_flag buf value = set_flag 4 7 buf value

unfoldable pub set_s_flag : List ℕ → Bool → Outcome (List ℕ)
set_s_flag buf value = set_flag 4 6 buf value

unfoldable pub set_o_flag : List ℕ → Bool → Outcome (List ℕ)
set_o_flag buf value = set_flag 4 5 buf value

unfoldable pub set_target_addr : List ℕ → List ℕ → Outcome (List ℕ)
set_target_addr buf addr = set_range buf 8 24 addr

module _ (net : ByteOrder) where
  unfoldable pub check_reserved : List ℕ → Outcome Bool
  check_reserved buf = field_u32 net 4 8 buf >>= λ raw. ok (bit_and raw 0x1fffffff == 0)

  unfoldable pub adjust_reserved : List ℕ → Outcome (List ℕ)
  adjust_reserved buf =
      field_u32 net 4 8 buf >>= λ raw. set_field_u32 net 4 8 buf (bit_and raw 0xe0000000)

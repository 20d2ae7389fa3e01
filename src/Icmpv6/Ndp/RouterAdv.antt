-- ===== src/Icmpv6/Ndp/RouterAdv.antt =====
-- rpkt/src/icmpv6/ndp/mod.rs: `NdpMsgRouterAdv` over its bytes.
use rpkt.Base.{ℕ, ◌==◌, Bool, bit_and, List, Outcome, ok, ◌>>=◌}
use rpkt.Extern.{ByteOrder}
use rpkt.Wire.{slice_from, byte_at, set_byte, field_u16, set_field_u16}
use rpkt.Wire.{field_u32, set_field_u32}
use rpkt.Icmpv6.Bits.{top_flag, flag, set_flag}

unfoldable pub cur_hop_limit : List ℕ → Outcome ℕ
cur_hop_limit buf = byte_at buf 4

unfoldable pub m_flag : List ℕ → Outcome Bool
m_flag buf = top_flag 5 buf

unfoldable pub o_flag : List ℕ → Outcome Bool
o_flag buf = flag 5 6 buf

unfoldable pub check_reserved : List ℕ → Outcome Bool
check_reserved buf = byte_at buf 5 >>= λ b. ok (bit_and b 0x3f == 0)

unfoldable pub option_bytes : List ℕ → Outcome (List ℕ)
option_bytes buf = slice_from buf 16

unfoldable pub set_cur_hop_limit : List ℕ → ℕ → Outcome (List ℕ)
set_cur_hop_limit buf value = set_byte buf 4 value

unfoldable pub set_m_flag : List ℕ → Bool → Outcome (List ℕ)
set_m_flag buf value = set_flag 5 7 buf value

unfoldable pub set_o_flag : List ℕ → Bool → Outcome (List ℕ)
set_o_flag buf value = set_flag 5 6 buf value

unfoldable pub adjust_reserved : List ℕ → Outcome (List ℕ)
adjust_reserved buf = byte_at buf 5 >>= λ b. set_byte buf 5 (bit_and b 0xc0)

module _ (net : ByteOrder) where
  unfoldable pub router_lifetime : List ℕ → Outcome ℕ
  router_lifetime buf = field_u16 net 6 8 buf

  unfoldable pub reachable_time : List ℕ → Outcome ℕ
  reachable_time buf = field_u32 net 8 12 buf

  unfoldable pub retrans_timer : List ℕ → Outcome ℕ
  retrans_timer buf = field_u32 net 12 16 buf

  unfoldable pub set_router_lifetime : List ℕ → ℕ → Outcome (List ℕ)
  set_router_lifetime buf value = set_field_u16 net 6 8 buf value

  unfoldable pub set_reachable_time : List ℕ → ℕ → Outcome (List ℕ)
  set_reachable_time buf value = set_field_u32 net 8 12 buf value

  unfoldable pub set_retrans_timer : List ℕ → ℕ → Outcome (List ℕ)
  set_retrans_timer buf value = set_field_u32 net 12 16 buf value

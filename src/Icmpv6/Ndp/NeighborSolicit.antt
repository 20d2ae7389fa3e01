-- ===== src/Icmpv6/Ndp/NeighborSolicit.antt =====
-- rpkt/src/icmpv6/ndp/mod.rs: `NdpMsgNeighborSolicit` over its bytes.
use rpkt.Base.{ℕ, Bool, List, Outcome}
use rpkt.Wire.{slice, slice_from, set_range}
use rpkt.Icmpv6.Bits.{are_zero, fill_zero}

unfoldable pub check_reserved : List ℕ → Outcome Bool
check_reserved buf = are_zero 4 8 buf

unfoldable pub target_addr : List ℕ → Outcome (List ℕ)
target_addr buf = slice buf 8 24

unfoldable pub option_bytes : List ℕ → Outcome (List ℕ)
option_bytes buf = slice_from buf 24

unfoldable pub adjust_reserved : List ℕ → Outcome (List ℕ)
adjust_reserved buf = fill_zero 4 8 buf

unfoldable pub set_target_addr : List ℕ → List ℕ → Outcome (List ℕ)
set_target_addr buf addr = set_range buf 8 24 addr

-- ===== src/Icmpv6/Ndp/RouterSolicit.antt =====
-- rpkt/src/icmpv6/ndp/mod.rs: `NdpMsgRouterSolicit` over its bytes.
use rpkt.Base.{ℕ, Bool, List, Outcome}
use rpkt.Wire.{slice_from}
use rpkt.Icmpv6.Bits.{are_zero, fill_zero}

unfoldable pub check_reserved : List ℕ → Outcome Bool
check_reserved buf = are_zero 4 8 buf

unfoldable pub option_bytes : List ℕ → Outcome (List ℕ)
option_bytes buf = slice_from buf 8

unfoldable pub adjust_reserved : List ℕ → Outcome (List ℕ)
adjust_reserved buf = fill_zero 4 8 buf

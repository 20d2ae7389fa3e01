-- ===== src/Icmpv6/Kinds.antt =====
-- The kinds of ICMPv6 messages.
use rpkt.Base.{ℕ, ◌-◌, ◌%◌, ◌≤◌, List, ◌∷◌, replicate, Outcome, ◌≡◌}
use rpkt.Traits.{PktMut}
use rpkt.Icmpv6.Packet

-- The messages that the functions `prepend_msg_…` make.
pub data Kind : Type 0 where
  dst_unreachable pkt_too_big time_exceed param_problem echo_request echo_reply : Kind
  ndp_router_solicit ndp_router_adv ndp_neighbor_solicit ndp_neighbor_adv ndp_redirect : Kind

-- Their type, and the lengths that they may have.
abbrev pub type_of : Kind → ℕ
type_of dst_unreachable = 1
type_of pkt_too_big = 2
type_of time_exceed = 3
type_of param_problem = 4
type_of echo_request = 128
type_of echo_reply = 129
type_of ndp_router_solicit = 133
type_of ndp_router_adv = 134
type_of ndp_neighbor_solicit = 135
type_of ndp_neighbor_adv = 136
type_of ndp_redirect = 137

abbrev pub Fits : Kind → ℕ → Type 0
Fits ndp_router_solicit n = (8 ≤ n) × (n % 8 ≡ 0)
Fits ndp_router_adv n = (16 ≤ n) × (n % 8 ≡ 0)
Fits ndp_neighbor_solicit n = (24 ≤ n) × (n % 8 ≡ 0)
Fits ndp_neighbor_adv n = (24 ≤ n) × (n % 8 ≡ 0)
Fits ndp_redirect n = (40 ≤ n) × (n % 8 ≡ 0)
Fits _ n = (8 ≤ n) × Unit {0}

-- What `msg` reads it as.
abbrev pub message : Kind → List ℕ → Packet.Icmpv6Msg
message dst_unreachable bytes = Packet.dst_unreachable bytes
message pkt_too_big bytes = Packet.pkt_too_big bytes
message time_exceed bytes = Packet.time_exceed bytes
message param_problem bytes = Packet.param_problem bytes
message echo_request bytes = Packet.echo_request bytes
message echo_reply bytes = Packet.echo_reply bytes
message ndp_router_solicit bytes = Packet.ndp_router_solicit bytes
message ndp_router_adv bytes = Packet.ndp_router_adv bytes
message ndp_neighbor_solicit bytes = Packet.ndp_neighbor_solicit bytes
message ndp_neighbor_adv bytes = Packet.ndp_neighbor_adv bytes
message ndp_redirect bytes = Packet.ndp_redirect bytes

abbrev pub prepend : (P : PktMut) → Kind → P.Buffer → ℕ → Outcome (List ℕ × P.Buffer)
prepend P dst_unreachable b n = Packet.prepend_msg_dst_unreachable P b n
prepend P pkt_too_big b n = Packet.prepend_msg_pkt_too_big P b n
prepend P time_exceed b n = Packet.prepend_msg_time_exceed P b n
prepend P param_problem b n = Packet.prepend_msg_param_problem P b n
prepend P echo_request b n = Packet.prepend_msg_echo_request P b n
prepend P echo_reply b n = Packet.prepend_msg_echo_reply P b n
prepend P ndp_router_solicit b n = Packet.prepend_msg_ndp_router_solicit P b n
prepend P ndp_router_adv b n = Packet.prepend_msg_ndp_router_adv P b n
prepend P ndp_neighbor_solicit b n = Packet.prepend_msg_ndp_neighbor_solicit P b n
prepend P ndp_neighbor_adv b n = Packet.prepend_msg_ndp_neighbor_adv P b n
prepend P ndp_redirect b n = Packet.prepend_msg_ndp_redirected P b n

-- The type, and zeros.
abbrev pub blank : ℕ → ℕ → List ℕ
blank msg_type n = msg_type ∷ replicate (n - 1) 0

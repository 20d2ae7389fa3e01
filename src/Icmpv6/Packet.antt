-- ===== src/Icmpv6/Packet.antt =====
-- rpkt/src/icmpv6/packet.rs: `Icmpv6Packet` over any buffer. An `Icmpv6MsgType` is its number.
use rpkt.Base.{ℕ, ◌-◌, ◌%◌, leb, ltb, ◌==◌, ◌&&◌, Bool, if◌then◌else◌, List, replicate}
use rpkt.Base.{Outcome, ok, ◌>>=◌, ◌>>◌, assert, length, ◌⊎◌, inl, inr}
use rpkt.Extern.{ByteOrder, Buf}
use rpkt.Wire.{byte_at, set_byte, set_range, slice_from, slice_to, field_u16, set_field_u16}
use rpkt.Traits.{PktMut}
use rpkt.Packet.{get, set}

-- A message holds the bytes of the packet.
pub data Icmpv6Msg : Type 0 where
  dst_unreachable pkt_too_big time_exceed param_problem echo_request echo_reply : List ℕ → Icmpv6Msg
  ndp_neighbor_adv ndp_neighbor_solicit ndp_redirect : List ℕ → Icmpv6Msg
  ndp_router_adv ndp_router_solicit : List ℕ → Icmpv6Msg
  invalid : ℕ → Icmpv6Msg

-- The message, if the packet has at least `min_len` bytes.
abbrev pub at_least : ℕ → ℕ → List ℕ → (List ℕ → Icmpv6Msg) → Icmpv6Msg
at_least min_len msg_type chunk message =
    if ltb (length chunk) min_len then invalid msg_type else message chunk

-- The inner `match self.msg_type()`.
unfoldable pub ndp_msg : ℕ → List ℕ → Icmpv6Msg
ndp_msg msg_type chunk =
    if msg_type == 133
    then at_least 8 msg_type chunk ndp_router_solicit
    else if msg_type == 134
    then at_least 16 msg_type chunk ndp_router_adv
    else if msg_type == 135
    then at_least 24 msg_type chunk ndp_neighbor_solicit
    else if msg_type == 136
    then at_least 24 msg_type chunk ndp_neighbor_adv
    else if msg_type == 137
    then at_least 40 msg_type chunk ndp_redirect
    else invalid msg_type

-- The outer `match self.msg_type()`.
unfoldable pub any_msg : ℕ → List ℕ → Icmpv6Msg
any_msg msg_type chunk =
    if msg_type == 1
    then dst_unreachable chunk
    else if msg_type == 2
    then pkt_too_big chunk
    else if msg_type == 3
    then time_exceed chunk
    else if msg_type == 4
    then param_problem chunk
    else if msg_type == 128
    then echo_request chunk
    else if msg_type == 129
    then echo_reply chunk
    else ndp_msg msg_type chunk

module _ (net : ByteOrder) (B : Buf) where
  unfoldable pub msg_type : B.Buffer → Outcome ℕ
  msg_type buf = get B (λ chunk. byte_at chunk 0) buf

  unfoldable pub code : B.Buffer → Outcome ℕ
  code buf = get B (λ chunk. byte_at chunk 1) buf

  unfoldable pub checksum : B.Buffer → Outcome ℕ
  checksum buf = get B (field_u16 net 2 4) buf

  unfoldable pub data_ : B.Buffer → Outcome (List ℕ)
  data_ buf = get B (λ chunk. slice_from chunk 4) buf

  -- `Ok` on the left.
  unfoldable pub parse : B.Buffer → Outcome (B.Buffer ⊎ B.Buffer)
  parse buf =
      if leb 8 (length (B.chunk buf)) && (length (B.chunk buf) == B.remaining buf)
      then ok (inl buf)
      else ok (inr buf)

  unfoldable pub msg : B.Buffer → Outcome Icmpv6Msg
  msg buf = msg_type buf >>= λ t. ok (any_msg t (B.chunk buf))

module _ (net : ByteOrder) (P : PktMut) where
  unfoldable pub set_msg_type : P.Buffer → ℕ → Outcome P.Buffer
  set_msg_type buf value = set P (λ chunk. set_byte chunk 0 value) buf

  unfoldable pub set_code : P.Buffer → ℕ → Outcome P.Buffer
  set_code buf value = set P (λ chunk. set_byte chunk 1 value) buf

  unfoldable pub set_checksum : P.Buffer → ℕ → Outcome P.Buffer
  set_checksum buf value = set P (λ chunk. set_field_u16 net 2 4 chunk value) buf

module _ (P : PktMut) where
  unfoldable pub prepend_msg : P.Buffer → ℕ → ℕ → Outcome P.Buffer
  prepend_msg buf msg_type msg_len = do
    moved ← P.move_back buf msg_len
    typed ← set P (λ chunk. set_byte chunk 0 msg_type) moved
    set P (λ chunk. set_range chunk 1 msg_len (replicate (msg_len - 1) 0)) typed

  -- What the functions below share: the check of the length, the message, and its bytes with the
  -- buffer.
  unfoldable pub prepend_checked : ℕ → P.Buffer → ℕ → Bool → Outcome (List ℕ × P.Buffer)
  prepend_checked msg_type buf msg_len fits = do
    assert (fits && (P.remaining buf == 0))
    buf' ← prepend_msg buf msg_type msg_len
    bytes ← slice_to (P.chunk buf') msg_len
    ok (bytes, buf')

  unfoldable pub prepend_msg_dst_unreachable : P.Buffer → ℕ → Outcome (List ℕ × P.Buffer)
  prepend_msg_dst_unreachable buf msg_len = prepend_checked 1 buf msg_len (leb 8 msg_len)

  unfoldable pub prepend_msg_pkt_too_big : P.Buffer → ℕ → Outcome (List ℕ × P.Buffer)
  prepend_msg_pkt_too_big buf msg_len = prepend_checked 2 buf msg_len (leb 8 msg_len)

  unfoldable pub prepend_msg_time_exceed : P.Buffer → ℕ → Outcome (List ℕ × P.Buffer)
  prepend_msg_time_exceed buf msg_len = prepend_checked 3 buf msg_len (leb 8 msg_len)

  unfoldable pub prepend_msg_param_problem : P.Buffer → ℕ → Outcome (List ℕ × P.Buffer)
  prepend_msg_param_problem buf msg_len = prepend_checked 4 buf msg_len (leb 8 msg_len)

  unfoldable pub prepend_msg_echo_request : P.Buffer → ℕ → Outcome (List ℕ × P.Buffer)
  prepend_msg_echo_request buf msg_len = prepend_checked 128 buf msg_len (leb 8 msg_len)

  unfoldable pub prepend_msg_echo_reply : P.Buffer → ℕ → Outcome (List ℕ × P.Buffer)
  prepend_msg_echo_reply buf msg_len = prepend_checked 129 buf msg_len (leb 8 msg_len)

  unfoldable pub prepend_msg_ndp_router_solicit : P.Buffer → ℕ → Outcome (List ℕ × P.Buffer)
  prepend_msg_ndp_router_solicit buf msg_len =
      prepend_checked 133 buf msg_len (leb 8 msg_len && (msg_len % 8 == 0))

  unfoldable pub prepend_msg_ndp_router_adv : P.Buffer → ℕ → Outcome (List ℕ × P.Buffer)
  prepend_msg_ndp_router_adv buf msg_len =
      prepend_checked 134 buf msg_len (leb 16 msg_len && (msg_len % 8 == 0))

  unfoldable pub prepend_msg_ndp_neighbor_solicit : P.Buffer → ℕ → Outcome (List ℕ × P.Buffer)
  prepend_msg_ndp_neighbor_solicit buf msg_len =
      prepend_checked 135 buf msg_len (leb 24 msg_len && (msg_len % 8 == 0))

  unfoldable pub prepend_msg_ndp_neighbor_adv : P.Buffer → ℕ → Outcome (List ℕ × P.Buffer)
  prepend_msg_ndp_neighbor_adv buf msg_len =
      prepend_checked 136 buf msg_len (leb 24 msg_len && (msg_len % 8 == 0))

  unfoldable pub prepend_msg_ndp_redirected : P.Buffer → ℕ → Outcome (List ℕ × P.Buffer)
  prepend_msg_ndp_redirected buf msg_len =
      prepend_checked 137 buf msg_len (leb 40 msg_len && (msg_len % 8 == 0))

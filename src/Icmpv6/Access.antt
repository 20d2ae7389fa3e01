-- ===== src/Icmpv6/Access.antt =====
-- What the accessors of the messages need: a message that `msg` gives has the bytes that its getters
-- read.
use rpkt.Base.{
  ℕ, ◌+◌, ◌≤◌, ltb, ◌==◌, Bool, true, false, Bool-cases, ltb-false, if◌then◌else◌, inl, inr,
}
use rpkt.Base.{List, length, Outcome, ok, ◌>>=◌, ◌≡◌, ap, arith}
use rpkt.Extern.{ByteOrder}
use rpkt.Wire.{slice, slice_from, byte_at, field_u32}
use rpkt.Wire.Laws.{slice_ok, slice_from_ok, byte_at_ok, field_u16_ok, field_u32_ok}
use rpkt.Icmpv6.Bits.{top_flag, flag, are_zero}
use rpkt.Icmpv6.Packet.{
  Icmpv6Msg, dst_unreachable, pkt_too_big, time_exceed, param_problem, echo_request, echo_reply,
  ndp_neighbor_adv, ndp_neighbor_solicit, ndp_redirect, ndp_router_adv, ndp_router_solicit, invalid,
  at_least, any_msg, ndp_msg,
}
use rpkt.Icmpv6.Msg
use rpkt.Icmpv6.Ndp.RouterSolicit
use rpkt.Icmpv6.Ndp.RouterAdv
use rpkt.Icmpv6.Ndp.NeighborSolicit
use rpkt.Icmpv6.Ndp.NeighborAdv
use rpkt.Icmpv6.Ndp.Redirect

-- The call does not panic.
abbrev pub Returns : {A : Type 0} → Outcome A → Type 0
Returns {A = A} o = (a : A) × (o ≡ ok a)

then_ok : {A B : Type 0} (o : Outcome A) (f : A → B) → Returns o → Returns (o >>= λ a. ok (f a))
then_ok o f (a, e) = (f a, ap (λ p. p >>= λ a. ok (f a)) e)

module _ (y : List ℕ) where
  byte-Returns : (i : ℕ) → i + 1 ≤ length y → Returns (byte_at y i)
  byte-Returns i h = (_, byte_at_ok y i (omega arith))

  slice-Returns : (l r : ℕ) → l ≤ r → r ≤ length y → Returns (slice y l r)
  slice-Returns l r h k = (_, slice_ok y l r h k)

  from-Returns : (l : ℕ) → l ≤ length y → Returns (slice_from y l)
  from-Returns l h = (_, slice_from_ok y l h)

  top_flag-Returns : (i : ℕ) → i + 1 ≤ length y → Returns (top_flag i y)
  unfolding top_flag
  top_flag-Returns i h = then_ok (byte_at y i) _ (byte-Returns i h)

  flag-Returns : (i k : ℕ) → i + 1 ≤ length y → Returns (flag i k y)
  unfolding flag
  flag-Returns i k h = then_ok (byte_at y i) _ (byte-Returns i h)

  are_zero-Returns : (l r : ℕ) → l ≤ r → r ≤ length y → Returns (are_zero l r y)
  unfolding are_zero
  are_zero-Returns l r h k = then_ok (slice y l r) _ (slice-Returns l r h k)

module _ (net : ByteOrder) where
  -- Every getter of the message returns.
  pub Readable : Icmpv6Msg → Type 0
  Readable (dst_unreachable y) =
      Returns (Msg.code y) × Returns (Msg.check_reserved y) × Returns (Msg.data_ y)
  Readable (pkt_too_big y) = Returns (Msg.mtu net y) × Returns (Msg.data_ y)
  Readable (time_exceed y) =
      Returns (Msg.code y) × Returns (Msg.check_reserved y) × Returns (Msg.data_ y)
  Readable (param_problem y) =
      Returns (Msg.code y) × Returns (Msg.ptr net y) × Returns (Msg.data_ y)
  Readable (echo_request y) =
      Returns (Msg.ident net y) × Returns (Msg.seq net y) × Returns (Msg.data_ y)
  Readable (echo_reply y) =
      Returns (Msg.ident net y) × Returns (Msg.seq net y) × Returns (Msg.data_ y)
  Readable (ndp_router_solicit y) =
      Returns (RouterSolicit.check_reserved y) × Returns (RouterSolicit.option_bytes y)
  Readable (ndp_router_adv y) =
      Returns (RouterAdv.cur_hop_limit y)
      × Returns (RouterAdv.m_flag y)
      × Returns (RouterAdv.o_flag y)
      × Returns (RouterAdv.check_reserved y)
      × Returns (RouterAdv.router_lifetime net y)
      × Returns (RouterAdv.reachable_time net y)
      × Returns (RouterAdv.retrans_timer net y)
      × Returns (RouterAdv.option_bytes y)
  Readable (ndp_neighbor_solicit y) =
      Returns (NeighborSolicit.check_reserved y)
      × Returns (NeighborSolicit.target_addr y)
      × Returns (NeighborSolicit.option_bytes y)
  Readable (ndp_neighbor_adv y) =
      Returns (NeighborAdv.r_flag y)
      × Returns (NeighborAdv.s_flag y)
      × Returns (NeighborAdv.o_flag y)
      × Returns (NeighborAdv.check_reserved net y)
      × Returns (NeighborAdv.target_addr y)
      × Returns (NeighborAdv.option_bytes y)
  Readable (ndp_redirect y) =
      Returns (Redirect.check_reserved y)
      × Returns (Redirect.target_addr y)
      × Returns (Redirect.dest_addr y)
      × Returns (Redirect.option_bytes y)
  Readable (invalid t) = Unit {0}

  module _ (y : List ℕ) (h : 8 ≤ length y) where
    at_least-Readable :
        (m t : ℕ) (message : List ℕ → Icmpv6Msg)
        → (m ≤ length y → Readable (message y))
        → Readable (at_least m t y message)
    unfolding Readable
    at_least-Readable m t message k = elim (Bool-cases (ltb (length y) m)) [
      | inl short ↦ rw short tt
      | inr long ↦ rw long (k (ltb-false (length y) m long))
    ]

    generic_msg : Returns (Msg.code y) × Returns (Msg.check_reserved y) × Returns (Msg.data_ y)
    unfolding Msg.code Msg.check_reserved Msg.data_
    generic_msg =
        (byte-Returns y 1 (omega arith), are_zero-Returns y 4 8 (omega arith) h, from-Returns y 8 h)

    echo_msg : Returns (Msg.ident net y) × Returns (Msg.seq net y) × Returns (Msg.data_ y)
    unfolding Msg.ident Msg.seq Msg.data_
    echo_msg = (
      (_, field_u16_ok net 4 y (omega arith)),
      (_, field_u16_ok net 6 y (omega arith)),
      from-Returns y 8 h,
    )

    word_msg : Returns (Msg.mtu net y) × Returns (Msg.ptr net y)
    unfolding Msg.mtu Msg.ptr
    word_msg = ((_, field_u32_ok net 4 y h), (_, field_u32_ok net 4 y h))

    router_adv-Readable : 16 ≤ length y → Readable (ndp_router_adv y)
    unfolding Readable RouterAdv.cur_hop_limit RouterAdv.m_flag RouterAdv.o_flag
        RouterAdv.check_reserved RouterAdv.router_lifetime RouterAdv.reachable_time
        RouterAdv.retrans_timer RouterAdv.option_bytes
    router_adv-Readable k = (
      byte-Returns y 4 (omega arith),
      top_flag-Returns y 5 (omega arith),
      flag-Returns y 5 6 (omega arith),
      then_ok (byte_at y 5) _ (byte-Returns y 5 (omega arith)),
      (_, field_u16_ok net 6 y (omega arith)),
      (_, field_u32_ok net 8 y (omega arith)),
      (_, field_u32_ok net 12 y (omega arith)),
      from-Returns y 16 k,
    )

    neighbor_solicit-Readable : 24 ≤ length y → Readable (ndp_neighbor_solicit y)
    unfolding Readable NeighborSolicit.check_reserved NeighborSolicit.target_addr
        NeighborSolicit.option_bytes
    neighbor_solicit-Readable k = (
      are_zero-Returns y 4 8 (omega arith) h,
      slice-Returns y 8 24 (omega arith) k,
      from-Returns y 24 k,
    )

    neighbor_adv-Readable : 24 ≤ length y → Readable (ndp_neighbor_adv y)
    unfolding Readable NeighborAdv.r_flag NeighborAdv.s_flag NeighborAdv.o_flag
        NeighborAdv.check_reserved NeighborAdv.target_addr NeighborAdv.option_bytes
    neighbor_adv-Readable k = (
      top_flag-Returns y 4 (omega arith),
      flag-Returns y 4 6 (omega arith),
      flag-Returns y 4 5 (omega arith),
      then_ok (field_u32 net 4 8 y) _ (_, field_u32_ok net 4 y h),
      slice-Returns y 8 24 (omega arith) k,
      from-Returns y 24 k,
    )

    redirect-Readable : 40 ≤ length y → Readable (ndp_redirect y)
    unfolding Readable Redirect.check_reserved Redirect.target_addr Redirect.dest_addr
        Redirect.option_bytes
    redirect-Readable k = (
      are_zero-Returns y 4 8 (omega arith) h,
      slice-Returns y 8 24 (omega arith) (omega arith),
      slice-Returns y 24 40 (omega arith) k,
      from-Returns y 40 k,
    )

    router_solicit-Readable : Readable (ndp_router_solicit y)
    unfolding Readable RouterSolicit.check_reserved RouterSolicit.option_bytes
    router_solicit-Readable = (are_zero-Returns y 4 8 (omega arith) h, from-Returns y 8 h)

    invalid-Readable : (t : ℕ) → Readable (invalid t)
    unfolding Readable
    invalid-Readable t = tt

    dst_unreachable-Readable : Readable (dst_unreachable y)
    unfolding Readable
    dst_unreachable-Readable = generic_msg

    time_exceed-Readable : Readable (time_exceed y)
    unfolding Readable
    time_exceed-Readable = generic_msg

    pkt_too_big-Readable : Readable (pkt_too_big y)
    unfolding Readable
    pkt_too_big-Readable = let (mtu, ptr) = word_msg in (mtu, generic_msg.2)

    param_problem-Readable : Readable (param_problem y)
    unfolding Readable
    param_problem-Readable = let (mtu, ptr) = word_msg in (generic_msg.0, ptr, generic_msg.2)

    echo_request-Readable : Readable (echo_request y)
    unfolding Readable
    echo_request-Readable = echo_msg

    echo_reply-Readable : Readable (echo_reply y)
    unfolding Readable
    echo_reply-Readable = echo_msg

    choose :
        (m m' : Icmpv6Msg) (b : Bool) → Readable m → Readable m' → Readable (if b then m else m')
    choose m m' true r s = r
    choose m m' false r s = s

    ndp_msg-Readable : (t : ℕ) → Readable (ndp_msg t y)
    unfolding ndp_msg
    ndp_msg-Readable t =
        choose _ _ (t == 133)
          (at_least-Readable 8 t ndp_router_solicit (λ k. router_solicit-Readable))
          (choose _ _ (t == 134) (at_least-Readable 16 t ndp_router_adv router_adv-Readable) (
            choose _ _ (t == 135)
              (at_least-Readable 24 t ndp_neighbor_solicit neighbor_solicit-Readable)
              (choose _ _ (t == 136) (at_least-Readable 24 t ndp_neighbor_adv neighbor_adv-Readable)
                (choose _ _ (t == 137) (at_least-Readable 40 t ndp_redirect redirect-Readable)
                  (invalid-Readable t)))))

    -- For a packet of at least 8 bytes, which `parse` asks for, and any type: no getter of the message
    -- that `msg` gives panics.
    pub any_msg-Readable : (t : ℕ) → Readable (any_msg t y)
    unfolding any_msg
    any_msg-Readable t = choose _ _ (t == 1) dst_unreachable-Readable (
        choose _ _ (t == 2) pkt_too_big-Readable (
          choose _ _ (t == 3) time_exceed-Readable (
            choose _ _ (t == 4) param_problem-Readable (
              choose _ _ (t == 128) echo_request-Readable
                (choose _ _ (t == 129) echo_reply-Readable (ndp_msg-Readable t))))))

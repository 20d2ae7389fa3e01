-- ===== src/Icmpv6/Exchange.antt =====
-- ICMPv6 messages put in front of an empty buffer, and read back.
use rpkt.Base.{ℕ, ◌+◌, ◌-◌, ◌%◌, ◌≤◌, leb, ◌==◌, ◌&&◌, Bool, true, le→leb, le→ltb, eq→==}
use rpkt.Base.{List, [], ◌∷◌, ◌++◌, replicate, length, take, drop, length-replicate, length-append}
use rpkt.Base.{length-drop, take-all, length-zero, append-nil, Outcome, ok, inl}
use rpkt.Base.{◌≡◌, refl, ap, ◌∙◌, arith}
use rpkt.Extern.{ByteOrder}
use rpkt.Wire.{splice, set_byte, set_range}
use rpkt.Wire.Laws.{byte_at_ok, set_byte_ok, set_range_ok, slice_to_ok, length-splice}
use rpkt.Traits.{PktMut, IsPktMut}
use rpkt.Packet.{get}
use rpkt.Packet.Laws
use rpkt.Packet.Laws.{Holds, Gives, Gives-then, ok_then}
use rpkt.Icmpv6.Packet
use rpkt.Icmpv6.Kinds.{
  Kind, dst_unreachable, pkt_too_big, time_exceed, param_problem, echo_request, echo_reply,
  ndp_router_solicit, ndp_router_adv, ndp_neighbor_solicit, ndp_neighbor_adv, ndp_redirect, type_of,
  Fits, message, prepend, blank,
}

length-blank : (t n : ℕ) → 8 ≤ n → length (blank t n) ≡ n
length-blank t n h = omega (arith, length-replicate {A = ℕ} (n - 1) 0)

-- Of `n` bytes, the first is set and the others are zeroed.
blank_fills :
    (gap : List ℕ) (t n : ℕ)
    → 8 ≤ n
    → length gap ≡ n
    → splice (splice gap 0 (t ∷ [])) 1 (replicate (n - 1) 0) ≡ blank t n
blank_fills gap t n h e =
    let zs : List ℕ = replicate (n - 1) 0 in
    let x : List ℕ = splice gap 0 (t ∷ []) in
    let size : length x ≡ n = length-splice gap 0 (t ∷ []) (omega arith) ∙ e in
    let behind : drop (1 + length zs) x ≡ [] =
      length-zero _
        (omega (arith, length-drop (1 + length zs) x, length-replicate {A = ℕ} (n - 1) 0)) in
    unfold splice in ap (λ ws. t ∷ (zs ++ ws)) behind ∙ ap (λ ws. t ∷ ws) (append-nil zs)

module _ (P : PktMut) (L : IsPktMut P) (b : P.Buffer) (f : List ℕ) (n : ℕ) (at : Holds P L b f [])
    (h : 8 ≤ n) (room : n ≤ length f) where
  prepend_msg-Gives :
      (t : ℕ) → Gives P L (Packet.prepend_msg P b t n) (take (length f - n) f) (blank t n)
  unfolding Packet.prepend_msg
  prepend_msg-Gives t =
      let gap : List ℕ = drop (length f - n) f in
      let size : length (gap ++ []) ≡ n =
        omega (arith, length-drop (length f - n) f, length-append gap []) in
      let x : List ℕ = splice (gap ++ []) 0 (t ∷ []) in
      let size' : length x ≡ length (gap ++ []) =
        length-splice (gap ++ []) 0 (t ∷ []) (omega arith) in
      let zs : List ℕ = replicate (n - 1) 0 in
      let done : splice x 1 zs ≡ blank t n = blank_fills (gap ++ []) t n h size in
      Gives-then P L (Laws.move_back-Gives P L b f [] at n room) (λ c hc.
        Gives-then P L
          (Laws.set-Gives P L c _ (gap ++ []) hc (λ chunk. set_byte chunk 0 t) x
            (set_byte_ok (gap ++ []) 0 t (omega arith)) size')
          (λ d hd.
            Laws.set-Gives P L d _ x hd (λ chunk. set_range chunk 1 n zs) (blank t n)
              (set_range_ok x 1 n zs (omega (arith, length-replicate {A = ℕ} (n - 1) 0))
                  (omega arith)
                ∙ ap ok done)
              (omega (arith, length-blank t n h))))

  prepend_checked-Gives :
      (t : ℕ) (fits : Bool)
      → fits ≡ true
      → (c : P.Buffer) × (Packet.prepend_checked P t b n fits ≡ ok (blank t n, c))
        × Holds P L c (take (length f - n) f) (blank t n)
  unfolding Packet.prepend_checked
  prepend_checked-Gives t fits e =
      let (c, e', hc) = prepend_msg-Gives t in
      let chunk : P.chunk c ≡ blank t n = Laws.chunk-Holds P L c _ (blank t n) hc in
      let size : length (blank t n) ≡ n = length-blank t n h in
      (
        c,
        rw
            (
              e,
              eq→== (P.remaining b) 0 (Laws.remaining-Holds P L b f [] at),
              e',
              chunk,
              slice_to_ok (blank t n) n (omega arith),
              take-all n (blank t n) (omega arith),
            )
            refl,
        hc,
      )

Fits-lower : (k : Kind) (n : ℕ) → Fits k n → 8 ≤ n
Fits-lower dst_unreachable n h = h.0
Fits-lower pkt_too_big n h = h.0
Fits-lower time_exceed n h = h.0
Fits-lower param_problem n h = h.0
Fits-lower echo_request n h = h.0
Fits-lower echo_reply n h = h.0
Fits-lower ndp_router_solicit n h = h.0
Fits-lower ndp_router_adv n h = omega arith
Fits-lower ndp_neighbor_solicit n h = omega arith
Fits-lower ndp_neighbor_adv n h = omega arith
Fits-lower ndp_redirect n h = omega arith

any_msg-blank :
    (k : Kind) (n : ℕ)
    → Fits k n
    → Packet.any_msg (type_of k) (blank (type_of k) n) ≡ message k (blank (type_of k) n)
unfolding Packet.any_msg Packet.ndp_msg
any_msg-blank dst_unreachable n h = refl
any_msg-blank pkt_too_big n h = refl
any_msg-blank time_exceed n h = refl
any_msg-blank param_problem n h = refl
any_msg-blank echo_request n h = refl
any_msg-blank echo_reply n h = refl
any_msg-blank ndp_router_solicit n h =
    rw (le→ltb 8 (length (blank 133 n)) (omega (arith, length-blank 133 n h.0))) refl
any_msg-blank ndp_router_adv n h =
    rw (le→ltb 16 (length (blank 134 n)) (omega (arith, length-blank 134 n (omega arith)))) refl
any_msg-blank ndp_neighbor_solicit n h =
    rw (le→ltb 24 (length (blank 135 n)) (omega (arith, length-blank 135 n (omega arith)))) refl
any_msg-blank ndp_neighbor_adv n h =
    rw (le→ltb 24 (length (blank 136 n)) (omega (arith, length-blank 136 n (omega arith)))) refl
any_msg-blank ndp_redirect n h =
    rw (le→ltb 40 (length (blank 137 n)) (omega (arith, length-blank 137 n (omega arith)))) refl

aligned : (m n : ℕ) → m ≤ n → n % 8 ≡ 0 → (leb m n && (n % 8 == 0)) ≡ true
aligned m n h e = rw (le→leb m n h, eq→== (n % 8) 0 e)

module _ (net : ByteOrder) (P : PktMut) (L : IsPktMut P) (b : P.Buffer) (f : List ℕ) (n : ℕ)
    (at : Holds P L b f []) (room : n ≤ length f) where
  abbrev pub Made : Kind → Outcome (List ℕ × P.Buffer) → Type 0
  Made k o =
      (c : P.Buffer) × (o ≡ ok (blank (type_of k) n, c))
      × Holds P L c (take (length f - n) f) (blank (type_of k) n)

  prepend-Made : (k : Kind) → Fits k n → Made k (prepend P k b n)
  unfolding Packet.prepend_msg_dst_unreachable Packet.prepend_msg_pkt_too_big
      Packet.prepend_msg_time_exceed Packet.prepend_msg_param_problem
      Packet.prepend_msg_echo_request Packet.prepend_msg_echo_reply
      Packet.prepend_msg_ndp_router_solicit Packet.prepend_msg_ndp_router_adv
      Packet.prepend_msg_ndp_neighbor_solicit Packet.prepend_msg_ndp_neighbor_adv
      Packet.prepend_msg_ndp_redirected
  prepend-Made dst_unreachable h =
      prepend_checked-Gives P L b f n at h.0 room 1 (leb 8 n) (le→leb 8 n h.0)
  prepend-Made pkt_too_big h =
      prepend_checked-Gives P L b f n at h.0 room 2 (leb 8 n) (le→leb 8 n h.0)
  prepend-Made time_exceed h =
      prepend_checked-Gives P L b f n at h.0 room 3 (leb 8 n) (le→leb 8 n h.0)
  prepend-Made param_problem h =
      prepend_checked-Gives P L b f n at h.0 room 4 (leb 8 n) (le→leb 8 n h.0)
  prepend-Made echo_request h =
      prepend_checked-Gives P L b f n at h.0 room 128 (leb 8 n) (le→leb 8 n h.0)
  prepend-Made echo_reply h =
      prepend_checked-Gives P L b f n at h.0 room 129 (leb 8 n) (le→leb 8 n h.0)
  prepend-Made ndp_router_solicit h =
      prepend_checked-Gives P L b f n at h.0 room 133 _ (aligned 8 n h.0 h.1)
  prepend-Made ndp_router_adv h =
      prepend_checked-Gives P L b f n at (omega arith) room 134 _ (aligned 16 n h.0 h.1)
  prepend-Made ndp_neighbor_solicit h =
      prepend_checked-Gives P L b f n at (omega arith) room 135 _ (aligned 24 n h.0 h.1)
  prepend-Made ndp_neighbor_adv h =
      prepend_checked-Gives P L b f n at (omega arith) room 136 _ (aligned 24 n h.0 h.1)
  prepend-Made ndp_redirect h =
      prepend_checked-Gives P L b f n at (omega arith) room 137 _ (aligned 40 n h.0 h.1)

  -- On a sound buffer without bytes to read, with `n` bytes of headroom, where `n` is a length that
  -- messages of the kind may have: its `prepend_msg_…` returns the type and zeros, `n` bytes, in a
  -- buffer that holds them; `parse` accepts it, and `msg` reads a message of this kind.
  pub msg-prepend :
      (k : Kind)
      → Fits k n
      → (c : P.Buffer) × (prepend P k b n ≡ ok (blank (type_of k) n, c))
        × Holds P L c (take (length f - n) f) (blank (type_of k) n)
        × (Packet.parse net P.pkt_buf.buf c ≡ ok (inl c))
        × (Packet.msg net P.pkt_buf.buf c ≡ ok (message k (blank (type_of k) n)))
  unfolding Packet.parse Packet.msg Packet.msg_type get
  msg-prepend k h =
      let bytes : List ℕ = blank (type_of k) n in
      let size : length bytes ≡ n = length-blank (type_of k) n (Fits-lower k n h) in
      let (c, e, hc) = prepend-Made k h in
      let chunk : P.chunk c ≡ bytes = Laws.chunk-Holds P L c _ bytes hc in
      (
        c,
        e,
        hc,
        rw
            (
              chunk,
              Laws.remaining-Holds P L c _ bytes hc,
              le→leb 8 (length bytes) (omega (arith, Fits-lower k n h)),
              eq→== (length bytes) (length bytes) refl,
            )
            refl,
        rw (chunk, byte_at_ok bytes 0 (omega arith)) (ap ok (any_msg-blank k n h)),
      )

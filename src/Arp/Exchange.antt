-- ===== src/Arp/Exchange.antt =====
-- ARP packets read and put together.
use rpkt.Base.{
  ℕ, ◌+◌, ◌-◌, ◌≤◌, ◌<◌, List, ◌++◌, ok, ◌≡◌, sym, ap, ◌∙◌, length, take, drop, ◌⊎◌, inl, inr,
}
use rpkt.Base.{
  arith, le→leb, lt→leb, leb, leb→le, leb-false, Bool-cases, length-append, length-take,
}
use rpkt.Base.{drop-append_le, take-append_le, drop-take, length-drop, take-take}
use rpkt.Wire.{slice}
use rpkt.Wire.Laws.{slice_ok}
use rpkt.Traits.{PktMut, IsPktMut}
use rpkt.Packet.{get}
use rpkt.Packet.Laws
use rpkt.Packet.Laws.{Holds}
use rpkt.Packet.Fixed.{push_header_checked-Gives}
use rpkt.Arp.Header
use rpkt.Arp.Packet.{
  parse, sender_hardware_addr, sender_protocol_addr, target_hardware_addr, target_protocol_addr,
  prepend_header,
}

-- A range inside the header is the header's, whatever follows.
slice-header :
    (header y : List ℕ) (n left right : ℕ)
    → n ≤ length header
    → left ≤ right
    → right ≤ n
    → slice (take n header ++ y) left right ≡ slice header left right
slice-header header y n left right h le hi =
    let front : List ℕ = take n header in
    let size : length front ≡ n = omega (arith, length-take n header) in
    let split : left + (n - left) ≡ n = omega arith in
    slice_ok (front ++ y) left right le (omega (arith, length-append front y))
    ∙ ap ok (
        ap (take (right - left)) (drop-append_le left front y (omega arith))
        ∙ take-append_le (right - left) (drop left front) y (omega (arith, length-drop left front))
        ∙ ap (λ m. take (right - left) (drop left (take m header))) (sym split)
        ∙ ap (take (right - left)) (drop-take left (n - left) header)
        ∙ take-take (right - left) (n - left) (drop left header) (omega arith))
    ∙ sym (slice_ok header left right le (omega arith))

module _ (P : PktMut) (L : IsPktMut P) (b : P.Buffer) (f y : List ℕ) (at : Holds P L b f y) where
  -- On a sound buffer with the bytes `y`, `parse` accepts if there are at least 28, and otherwise gives
  -- the buffer back as an error.
  pub parse_decides_arp :
      ((28 ≤ length y) × (parse P.pkt_buf.buf b ≡ ok (inl b)))
      ⊎ ((length y < 28) × (parse P.pkt_buf.buf b ≡ ok (inr b)))
  unfolding parse
  parse_decides_arp = elim (Bool-cases (leb 28 (length y))) [
    | inl h ↦
        let k : 28 ≤ length y = leb→le 28 (length y) h in
        inl (k, rw (Laws.chunk-Holds P L b f y at, le→leb 28 (length y) k))
    | inr h ↦
        let k : length y < 28 = leb-false 28 (length y) h in
        inr (k, rw (Laws.chunk-Holds P L b f y at, lt→leb 28 (length y) k))
  ]

  -- With 28 bytes of headroom, `prepend_header` of a header of at least 28 bytes returns a packet: its
  -- bytes are the first 28 of the header and `y`, and the rest of the headroom is as it was. `parse`
  -- accepts it, and its four addresses are those of the header.
  pub parse-prepend_header_arp :
      (header : List ℕ)
      → 28 ≤ length header
      → 28 ≤ length f
      → (p : P.Buffer) × (prepend_header P b header ≡ ok p)
        × Holds P L p (take (length f - 28) f) (take 28 header ++ y)
        × (parse P.pkt_buf.buf p ≡ ok (inl p))
        × (sender_hardware_addr P.pkt_buf.buf p ≡ Header.sender_hardware_addr header)
        × (sender_protocol_addr P.pkt_buf.buf p ≡ Header.sender_protocol_addr header)
        × (target_hardware_addr P.pkt_buf.buf p ≡ Header.target_hardware_addr header)
        × (target_protocol_addr P.pkt_buf.buf p ≡ Header.target_protocol_addr header)
  unfolding prepend_header parse get sender_hardware_addr sender_protocol_addr target_hardware_addr
      target_protocol_addr Header.sender_hardware_addr Header.sender_protocol_addr
      Header.target_hardware_addr Header.target_protocol_addr
  parse-prepend_header_arp header h room =
      let size : 28 ≤ length (take 28 header ++ y) =
        omega (arith, length-append (take 28 header) y, length-take 28 header) in
      let (p, e, hp) = push_header_checked-Gives P L 28 b f y header at h room in
      let chunk : P.chunk p ≡ take 28 header ++ y =
        Laws.chunk-Holds P L p _ (take 28 header ++ y) hp in
      (
        p,
        e,
        hp,
        rw (chunk, le→leb 28 (length (take 28 header ++ y)) size),
        ap (λ c. slice c 8 14) chunk ∙ slice-header header y 28 8 14 h (omega arith) (omega arith),
        ap (λ c. slice c 14 18) chunk
            ∙ slice-header header y 28 14 18 h (omega arith) (omega arith),
        ap (λ c. slice c 18 24) chunk
            ∙ slice-header header y 28 18 24 h (omega arith) (omega arith),
        ap (λ c. slice c 24 28) chunk
            ∙ slice-header header y 28 24 28 h (omega arith) (omega arith),
      )

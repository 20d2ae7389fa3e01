-- ===== src/Udp/Laws.antt =====
-- `UdpPacket` over a buffer that keeps the contract of `PktMut`.
use rpkt.Base.{ℕ, ◌+◌, ◌-◌, ◌*◌, ◌≤◌, ◌<◌, ◌^◌, ltb, leb, ◌&&◌, List, ◌++◌, ok, ◌>>=◌}
use rpkt.Base.{
  ◌≡◌, sym, ap, ◌∙◌, arith, length, take, drop, get_or, le→leb, le→ltb, ◌⊎◌, inl, inr, Bool-cases,
  ltb-false,
}
use rpkt.Base.{length-append, length-take, length-drop, take-all, drop_prefix}
use rpkt.Extern.{ByteOrder}
use rpkt.Wire.{splice}
use rpkt.Wire.Laws.{field_u16_ok, set_field_u16_ok, length-splice, drop-splice, slice_ok}
use rpkt.Wire.Fields.{wire_u16, get_or-splice_in}
use rpkt.Traits.{PktMut, IsPktMut}
use rpkt.Packet.{get, set, try_u16}
use rpkt.Packet.Laws
use rpkt.Packet.Laws.{Holds, Gives, Gives-then, ok_then, try_u16_ok, try_u16_panic}
use rpkt.Udp.Header
use rpkt.Udp.Packet.{packet_len, parse, payload, prepend_header}

-- The length that the header in front of the bytes states.
abbrev pub stated_len : List ℕ → ℕ
stated_len y = get_or y 4 0 * 256 + get_or y 5 0

-- The bytes start with a datagram.
abbrev pub HasDatagram : List ℕ → Type 0
HasDatagram y = (8 ≤ stated_len y) × (stated_len y ≤ length y)

-- The header with its length field set, and the payload.
abbrev pub datagram : List ℕ → List ℕ → List ℕ
datagram header y = splice (take 8 header ++ y) 4 (wire_u16 (8 + length y))

module _ (header y : List ℕ) (h : 8 ≤ length header) where
  length-joined : length (take 8 header ++ y) ≡ 8 + length y
  length-joined = omega (arith, length-append (take 8 header) y, length-take 8 header)

  pub length-datagram : length (datagram header y) ≡ 8 + length y
  length-datagram =
      length-splice (take 8 header ++ y) 4 (wire_u16 (8 + length y)) (omega (arith, length-joined))
      ∙ length-joined

  pub stated_len-datagram : 8 + length y < 2 ^ 16 → stated_len (datagram header y) ≡ 8 + length y
  stated_len-datagram k =
      let fits : 4 + 2 ≤ length (take 8 header ++ y) = omega (arith, length-joined) in
      omega (
        arith,
        get_or-splice_in (take 8 header ++ y) 4 (wire_u16 (8 + length y)) 0 fits (omega arith),
        get_or-splice_in (take 8 header ++ y) 4 (wire_u16 (8 + length y)) 1 fits (omega arith),
      )

  pub datagram-HasDatagram : 8 + length y < 2 ^ 16 → HasDatagram (datagram header y)
  datagram-HasDatagram k = omega (arith, stated_len-datagram k, length-datagram)

  pub drop-take-datagram :
      8 + length y < 2 ^ 16 → drop 8 (take (stated_len (datagram header y)) (datagram header y)) ≡ y
  drop-take-datagram k =
      ap (drop 8)
        (take-all _ (datagram header y) (omega (arith, stated_len-datagram k, length-datagram)))
      ∙ drop-splice (take 8 header ++ y) 4 (wire_u16 (8 + length y)) 2
          (omega (arith, length-joined))
      ∙ drop_prefix 8 (take 8 header) y (omega (arith, length-take 8 header))

pub HasDatagram-cases : (y : List ℕ) → HasDatagram y ⊎ (¬ HasDatagram y)
HasDatagram-cases y = elim (Bool-cases (leb 8 (stated_len y) && leb (stated_len y) (length y))) [
  | inl both ↦ inl (ground arith)
  | inr not_both ↦ inr (λ h. ground arith)
]

module _ (net : ByteOrder) (P : PktMut) (L : IsPktMut P) where
  -- The length field of a joined header and payload is set.
  filled_in :
      (header y : List ℕ)
      → 8 ≤ length header
      → 8 + length y < 2 ^ 16
      → (f : List ℕ) (d : P.Buffer) → Holds P L d f (take 8 header ++ y)
      → Gives P L
          (try_u16 (P.remaining d) >>= λ len.
            set P (λ chunk. Header.set_packet_len net chunk len) d)
          f
          (datagram header y)
  unfolding Header.set_packet_len
  filled_in header y h k f d at =
      let all : P.remaining d ≡ 8 + length y =
        Laws.remaining-Holds P L d f _ at ∙ length-joined header y h in
      rw (all, try_u16_ok (8 + length y) k)
        (Laws.set-Gives P L d f (take 8 header ++ y) at _ (datagram header y)
          (set_field_u16_ok net 4 (take 8 header ++ y) (8 + length y)
            (omega (arith, length-joined header y h)))
          (length-datagram header y h ∙ sym (length-joined header y h)))

  module _ (b : P.Buffer) (f y : List ℕ) (at : Holds P L b f y) where
    pub packet_len-Holds : 8 ≤ length y → packet_len net P.pkt_buf.buf b ≡ ok (stated_len y)
    unfolding packet_len get Header.packet_len
    packet_len-Holds h =
        ap (Header.packet_len net) (Laws.chunk-Holds P L b f y at)
        ∙ field_u16_ok net 4 y (omega arith)

    pub parse-accepts : HasDatagram y → parse net P.pkt_buf.buf b ≡ ok (inl b)
    unfolding parse
    parse-accepts h = rw (
      Laws.chunk-Holds P L b f y at,
      le→ltb 8 (length y) (omega arith),
      packet_len-Holds (omega arith),
      Laws.remaining-Holds P L b f y at,
      le→leb 8 (stated_len y) h.0,
      le→leb (stated_len y) (length y) h.1,
    )

    pub payload-Gives :
        HasDatagram y
        → Gives P L
            (payload net P.pkt_buf b)
            (f ++ take 8 (take (stated_len y) y))
            (drop 8 (take (stated_len y) y))
    unfolding payload
    payload-Gives h =
        rw (packet_len-Holds (omega arith), Laws.leb-remaining P L b f y at (stated_len y) h.1)
          (Laws.trim_and_advance-Gives P L b f y (stated_len y) 8 at h.0 h.1)

    pub parse-rejects : ¬ HasDatagram y → parse net P.pkt_buf.buf b ≡ ok (inr b)
    unfolding parse
    parse-rejects h =
        rw (Laws.chunk-Holds P L b f y at, Laws.remaining-Holds P L b f y at)
          (elim (Bool-cases (ltb (length y) 8)) [
            | inl short ↦ rw short
            | inr long ↦
                rw (long, packet_len-Holds (ltb-false (length y) 8 long))
                  (elim (Bool-cases (leb 8 (stated_len y) && leb (stated_len y) (length y))) [
                    | inl both ↦ absurd (h (ground arith))
                    | inr not_both ↦ rw not_both
                  ])
          ])

    -- The header is put in front of the bytes, with its length field set.
    pub prepend_header-Gives :
        (header : List ℕ)
        → 8 ≤ length header
        → 8 ≤ length f
        → 8 + length y < 2 ^ 16
        → Gives P L (prepend_header net P b header) (take (length f - 8) f) (datagram header y)
    unfolding prepend_header Header.as_bytes Header.set_packet_len
    prepend_header-Gives header h room k =
        let gap : List ℕ = drop (length f - 8) f in
        let eight : length gap ≡ 8 = omega (arith, length-drop (length f - 8) f) in
        rw
          (
            Laws.headroom-Holds P L b f y at,
            le→leb 8 (length f) room,
            slice_ok header 0 8 (omega arith) h,
          )
          (Gives-then P L (Laws.move_back-Gives P L b f y at 8 room) (λ c hc.
            Gives-then P L
              (Laws.put_header-Gives P L c _ (gap ++ y) 8 (take 8 header) hc
                (omega (arith, length-take 8 header)) (omega (arith, length-append gap y)))
              (λ d hd.
                filled_in header y h k _ d
                  (hd.0, hd.1, hd.2 ∙ ap (λ z. take 8 header ++ z) (drop_prefix 8 gap y eight)))))

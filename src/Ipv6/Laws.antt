-- ===== src/Ipv6/Laws.antt =====
-- `Ipv6Packet` over a buffer that keeps the contract of `PktMut`.
use rpkt.Base.{ℕ, ◌+◌, ◌-◌, ◌*◌, ◌≤◌, ◌<◌, ◌^◌, ltb, List, ◌++◌, ok}
use rpkt.Base.{
  ◌≡◌, sym, ap, ◌∙◌, arith, length, take, drop, get_or, le→leb, lt→leb, le→ltb, inl, inr,
  Bool-cases, ltb-false,
}
use rpkt.Base.{length-append, length-take, take-all, drop_prefix}
use rpkt.Extern.{ByteOrder}
use rpkt.Wire.{splice}
use rpkt.Wire.Laws.{field_u16_ok, set_field_u16_ok, length-splice, drop-splice}
use rpkt.Wire.Fields.{wire_u16, get_or-splice_in}
use rpkt.Traits.{PktMut, IsPktMut}
use rpkt.Packet.{get}
use rpkt.Packet.Laws
use rpkt.Packet.Laws.{Holds, Gives, Gives-then, ok_then, try_u16_ok}
use rpkt.Packet.Fixed.{push_header-Gives}
use rpkt.Ipv6.Header
use rpkt.Ipv6.Packet.{payload_len, parse, payload, prepend_header}

-- The payload length that the header in front of the bytes states.
abbrev pub stated_len : List ℕ → ℕ
stated_len y = get_or y 4 0 * 256 + get_or y 5 0

-- The bytes start with a header and as many bytes as it states.
abbrev pub HasPacket : List ℕ → Type 0
HasPacket y = 40 + stated_len y ≤ length y

-- The header with its length field set, and the payload.
abbrev pub packet : List ℕ → List ℕ → List ℕ
packet header y = splice (take 40 header ++ y) 4 (wire_u16 (length y))

module _ (header y : List ℕ) (h : 40 ≤ length header) where
  length-joined : length (take 40 header ++ y) ≡ 40 + length y
  length-joined = omega (arith, length-append (take 40 header) y, length-take 40 header)

  pub length-packet : length (packet header y) ≡ 40 + length y
  length-packet =
      length-splice (take 40 header ++ y) 4 (wire_u16 (length y)) (omega (arith, length-joined))
      ∙ length-joined

  pub stated_len-packet : length y < 2 ^ 16 → stated_len (packet header y) ≡ length y
  stated_len-packet k =
      let fits : 4 + 2 ≤ length (take 40 header ++ y) = omega (arith, length-joined) in
      omega (
        arith,
        get_or-splice_in (take 40 header ++ y) 4 (wire_u16 (length y)) 0 fits (omega arith),
        get_or-splice_in (take 40 header ++ y) 4 (wire_u16 (length y)) 1 fits (omega arith),
      )

  pub drop-take-packet :
      length y < 2 ^ 16 → drop 40 (take (40 + stated_len (packet header y)) (packet header y)) ≡ y
  drop-take-packet k =
      ap (drop 40)
        (take-all _ (packet header y) (omega (arith, stated_len-packet k, length-packet)))
      ∙ drop-splice (take 40 header ++ y) 4 (wire_u16 (length y)) 34 (omega (arith, length-joined))
      ∙ drop_prefix 40 (take 40 header) y (omega (arith, length-take 40 header))

module _ (net : ByteOrder) (P : PktMut) (L : IsPktMut P) (b : P.Buffer) (f y : List ℕ)
    (at : Holds P L b f y) where
  payload_len-Holds : 40 ≤ length y → payload_len net P.pkt_buf.buf b ≡ ok (stated_len y)
  unfolding payload_len get Header.payload_len
  payload_len-Holds h =
      ap (Header.payload_len net) (Laws.chunk-Holds P L b f y at)
      ∙ field_u16_ok net 4 y (omega arith)

  pub parse-accepts : HasPacket y → parse net P.pkt_buf.buf b ≡ ok (inl b)
  unfolding parse
  parse-accepts h = rw (
    Laws.chunk-Holds P L b f y at,
    le→ltb 40 (length y) (omega arith),
    payload_len-Holds (omega arith),
    Laws.remaining-Holds P L b f y at,
    le→leb (40 + stated_len y) (length y) h,
  )

  pub parse-rejects : length y < 40 + stated_len y → parse net P.pkt_buf.buf b ≡ ok (inr b)
  unfolding parse
  parse-rejects h =
      rw (Laws.chunk-Holds P L b f y at, Laws.remaining-Holds P L b f y at)
        (elim (Bool-cases (ltb (length y) 40)) [
          | inl short ↦ rw short
          | inr long ↦ rw (
            long,
            payload_len-Holds (ltb-false (length y) 40 long),
            lt→leb (40 + stated_len y) (length y) h,
          )
        ])

  pub payload-Gives :
      HasPacket y
      → Gives P L
          (payload net P.pkt_buf b)
          (f ++ take 40 (take (40 + stated_len y) y))
          (drop 40 (take (40 + stated_len y) y))
  unfolding payload
  payload-Gives h =
      rw (payload_len-Holds (omega arith), Laws.leb-remaining P L b f y at (40 + stated_len y) h)
        (Laws.trim_and_advance-Gives P L b f y (40 + stated_len y) 40 at (omega arith) h)

  pub prepend_header-Gives :
      (header : List ℕ)
      → 40 ≤ length header
      → 40 ≤ length f
      → length y < 2 ^ 16
      → Gives P L (prepend_header net P b header) (take (length f - 40) f) (packet header y)
  unfolding prepend_header Header.set_payload_len
  prepend_header-Gives header h room k =
      let size : length (take 40 header ++ y) ≡ 40 + length y = length-joined header y h in
      let (p, e, hp) = push_header-Gives P L 40 b f y header at h room in
      let (c, e', hc) =
        Laws.set-Gives P L p _ (take 40 header ++ y) hp
          (λ chunk. Header.set_payload_len net chunk (length y)) (packet header y)
          (set_field_u16_ok net 4 (take 40 header ++ y) (length y) (omega arith))
          (length-packet header y h ∙ sym size) in
      (c, rw (e, Laws.remaining-Holds P L b f y at, try_u16_ok (length y) k) e', hc)

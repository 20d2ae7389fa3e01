-- ===== src/Ipv4/Laws.antt =====
-- `Ipv4Packet` over a buffer that keeps the contract of `PktMut`.
use rpkt.Base.{ℕ, ◌+◌, ◌*◌, ◌%◌, ◌≤◌, ◌<◌, ◌^◌, ltb, leb, ◌&&◌, List, ◌++◌, ok, ◌>>=◌}
use rpkt.Base.{
  ◌≡◌, sym, ap, ap₂, ◌∙◌, arith, length, take, drop, get_or, le→leb, le→ltb, ◌⊎◌, inl, inr,
  Bool-cases, ltb-false,
}
use rpkt.Base.{length-append, length-take, take-all, drop_prefix, append_assoc}
use rpkt.Base.Bits.{bit_and_mask}
use rpkt.Extern.{ByteOrder}
use rpkt.Wire.{splice}
use rpkt.Wire.Laws.{
  field_u16_ok, set_field_u16_ok, length-splice, drop-splice, byte_at_ok, get_or-take,
  get_or-append,
}
use rpkt.Wire.Fields.{wire_u16, get_or-splice_in, get_or-splice-Apart}
use rpkt.Traits.{PktMut, IsPktMut}
use rpkt.Packet.{get, set, try_u16}
use rpkt.Packet.Laws
use rpkt.Packet.Laws.{Holds, Gives, Gives-then, ok_then, try_u16_ok}
use rpkt.Ipv4.Header
use rpkt.Ipv4.Packet.{header_len, packet_len, parse, payload}

-- What the header in front of the bytes states.
abbrev pub stated_header_len : List ℕ → ℕ
stated_header_len y = get_or y 0 0 % 16 * 4

abbrev pub stated_len : List ℕ → ℕ
stated_len y = get_or y 2 0 * 256 + get_or y 3 0

-- The bytes start with a packet.
abbrev pub HasPacket : List ℕ → Type 0
HasPacket y =
    (20 ≤ stated_header_len y) × (stated_header_len y ≤ stated_len y) × (stated_len y ≤ length y)

pub HasPacket-cases : (y : List ℕ) → HasPacket y ⊎ (¬ HasPacket y)
HasPacket-cases y =
    elim (Bool-cases (
      leb 20 (stated_header_len y)
      && (leb (stated_header_len y) (stated_len y) && leb (stated_len y) (length y)))) [
        | inl all ↦ inl (ground arith)
        | inr not_all ↦ inr (λ h. ground arith)
      ]

-- The header with its length field set, and the bytes behind it.
abbrev pub packet : List ℕ → List ℕ → List ℕ
packet header z = splice (take 20 header ++ z) 2 (wire_u16 (20 + length z))

pub header_len_ok : (y : List ℕ) → 20 ≤ length y → Header.header_len y ≡ ok (stated_header_len y)
unfolding Header.header_len
header_len_ok y h =
    rw (byte_at_ok y 0 (omega arith), bit_and_mask 4 (get_or y 0 0)) (ap ok (omega arith))

module _ (header z : List ℕ) (h : 20 ≤ length header) where
  pub length-joined : length (take 20 header ++ z) ≡ 20 + length z
  length-joined = omega (arith, length-append (take 20 header) z, length-take 20 header)

  fits : 2 + 2 ≤ length (take 20 header ++ z)
  fits = omega (arith, length-joined)

  pub length-packet : length (packet header z) ≡ 20 + length z
  length-packet = length-splice _ 2 (wire_u16 (20 + length z)) fits ∙ length-joined

  pub stated_len-packet : 20 + length z < 2 ^ 16 → stated_len (packet header z) ≡ 20 + length z
  stated_len-packet k = omega (
    arith,
    get_or-splice_in (take 20 header ++ z) 2 (wire_u16 (20 + length z)) 0 fits (omega arith),
    get_or-splice_in (take 20 header ++ z) 2 (wire_u16 (20 + length z)) 1 fits (omega arith),
  )

  pub stated_header_len-packet : stated_header_len (packet header z) ≡ stated_header_len header
  stated_header_len-packet =
      let first : get_or (take 20 header ++ z) 0 0 ≡ get_or header 0 0 = ground (
        arith,
        get_or-append (take 20 header) z 0,
        get_or-take 20 0 header,
        length-take 20 header,
      ) in
      let same : get_or (packet header z) 0 0 ≡ get_or (take 20 header ++ z) 0 0 =
        get_or-splice-Apart _ 2 (wire_u16 (20 + length z)) 0 fits (inl (omega arith)) in
      omega arith

  pub packet-HasPacket :
      20 ≤ stated_header_len header
      → stated_header_len header ≤ 20 + length z
      → 20 + length z < 2 ^ 16
      → HasPacket (packet header z)
  packet-HasPacket lo hi k =
      omega (arith, stated_header_len-packet, stated_len-packet k, length-packet)

-- The payload of a packet with options.
pub drop-take-packet :
    (header options y : List ℕ)
    → 20 ≤ length header
    → stated_header_len header ≡ 20 + length options
    → 20 + length (options ++ y) < 2 ^ 16
    → let p = packet header (options ++ y) in drop (stated_header_len p) (take (stated_len p) p) ≡ y
drop-take-packet header options y h e k =
    let z : List ℕ = options ++ y in
    let front : List ℕ = take 20 header ++ options in
    let size : length front ≡ 20 + length options =
      omega (arith, length-append (take 20 header) options, length-take 20 header) in
    let at : stated_header_len (packet header z) ≡ 4 + (16 + length options) =
      omega (arith, stated_header_len-packet header z h) in
    let back : 4 + (16 + length options) ≡ 20 + length options = omega arith in
    ap (drop (stated_header_len (packet header z))) (
      take-all _ (packet header z)
        (omega (arith, stated_len-packet header z h k, length-packet header z h)))
    ∙ ap (λ n. drop n (packet header z)) at
    ∙ drop-splice (take 20 header ++ z) 2 (wire_u16 (20 + length z)) (16 + length options)
        (fits header z h)
    ∙ ap₂ drop back (sym (append_assoc (take 20 header) options y))
    ∙ drop_prefix (20 + length options) front y size

module _ (net : ByteOrder) (P : PktMut) (L : IsPktMut P) where
  -- The length field of a joined header and payload is set.
  pub filled_in :
      (header z : List ℕ)
      → 20 ≤ length header
      → 20 + length z < 2 ^ 16
      → (f : List ℕ) (d : P.Buffer) → Holds P L d f (take 20 header ++ z)
      → Gives P L
          (try_u16 (P.remaining d) >>= λ len.
            set P (λ chunk. Header.set_packet_len net chunk len) d)
          f
          (packet header z)
  unfolding Header.set_packet_len
  filled_in header z h k f d at =
      let all : P.remaining d ≡ 20 + length z =
        Laws.remaining-Holds P L d f _ at ∙ length-joined header z h in
      rw (all, try_u16_ok (20 + length z) k)
        (Laws.set-Gives P L d f (take 20 header ++ z) at _ (packet header z)
          (set_field_u16_ok net 2 (take 20 header ++ z) (20 + length z) (fits header z h))
          (length-packet header z h ∙ sym (length-joined header z h)))

  module _ (b : P.Buffer) (f y : List ℕ) (at : Holds P L b f y) where
    pub header_len-Holds : 20 ≤ length y → header_len net P.pkt_buf.buf b ≡ ok (stated_header_len y)
    unfolding header_len get
    header_len-Holds h = ap Header.header_len (Laws.chunk-Holds P L b f y at) ∙ header_len_ok y h

    packet_len-Holds : 20 ≤ length y → packet_len net P.pkt_buf.buf b ≡ ok (stated_len y)
    unfolding packet_len get Header.packet_len
    packet_len-Holds h =
        ap (Header.packet_len net) (Laws.chunk-Holds P L b f y at)
        ∙ field_u16_ok net 2 y (omega arith)

    pub parse-accepts : HasPacket y → parse net P.pkt_buf.buf b ≡ ok (inl b)
    unfolding parse
    parse-accepts h = rw (
      Laws.chunk-Holds P L b f y at,
      le→ltb 20 (length y) (omega arith),
      header_len-Holds (omega arith),
      packet_len-Holds (omega arith),
      Laws.remaining-Holds P L b f y at,
      le→leb 20 (stated_header_len y) (omega arith),
      le→leb (stated_header_len y) (stated_len y) (omega arith),
      le→leb (stated_header_len y) (length y) (omega arith),
      le→leb (stated_len y) (length y) (omega arith),
    )

    pub parse-rejects : ¬ HasPacket y → parse net P.pkt_buf.buf b ≡ ok (inr b)
    unfolding parse
    parse-rejects h =
        rw (Laws.chunk-Holds P L b f y at, Laws.remaining-Holds P L b f y at)
          (elim (Bool-cases (ltb (length y) 20)) [
            | inl short ↦ rw short
            | inr long ↦
                let enough : 20 ≤ length y = ltb-false (length y) 20 long in
                rw (long, header_len-Holds enough, packet_len-Holds enough)
                  (elim (Bool-cases (
                    leb 20 (stated_header_len y)
                    && (leb (stated_header_len y) (stated_len y)
                        && (leb (stated_header_len y) (length y)
                            && leb (stated_len y) (length y))))) [
                              | inl all ↦ absurd (h (ground arith))
                              | inr not_all ↦ rw not_all
                            ])
          ])

    pub payload-Gives :
        HasPacket y
        → Gives P L
            (payload net P.pkt_buf b)
            (f ++ take (stated_header_len y) (take (stated_len y) y))
            (drop (stated_header_len y) (take (stated_len y) y))
    unfolding payload
    payload-Gives h =
        rw
          (
            packet_len-Holds (omega arith),
            Laws.leb-remaining P L b f y at (stated_len y) (omega arith),
            header_len-Holds (omega arith),
          )
          (Laws.trim_and_advance-Gives P L b f y (stated_len y) (stated_header_len y) at
            (omega arith) (omega arith))

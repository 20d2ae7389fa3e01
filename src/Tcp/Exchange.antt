-- ===== src/Tcp/Exchange.antt =====
-- Segments taken apart and put together, over a buffer that keeps the contract of `PktMut`.
use rpkt.Base.{ℕ, ◌+◌, ◌-◌, ◌*◌, ◌/◌, ◌%◌, ◌≤◌, ◌^◌, ltb, ◌||◌, List, ◌++◌, ok}
use rpkt.Base.{
  ◌≡◌, ap, ◌∙◌, arith, length, take, drop, get_or, le→ltb, ◌⊎◌, inl, inr, Bool-cases, ltb-false,
}
use rpkt.Base.Bits.{bit_and_high, bit_and_mask}
use rpkt.Extern.{ByteOrder}
use rpkt.Wire.Laws.{field_u16_ok, slice_ok}
use rpkt.Traits.{PktMut, IsPktMut}
use rpkt.Packet.{get}
use rpkt.Packet.Laws
use rpkt.Packet.Laws.{Holds, Gives, Gives-then}
use rpkt.Tcp.Header
use rpkt.Tcp.Packet.{header_len, parse, payload, option_bytes}

-- The header length that the bytes state.
abbrev pub stated_header_len : List ℕ → ℕ
stated_header_len y = (get_or y 12 0 * 256 + get_or y 13 0) / 2 ^ 12 % 16 * 4

-- The bytes start with a header and its options.
abbrev pub HasSegment : List ℕ → Type 0
HasSegment y = (20 ≤ stated_header_len y) × (stated_header_len y ≤ length y)

HasSegment-cases : (y : List ℕ) → HasSegment y ⊎ (¬ HasSegment y)
HasSegment-cases y =
    elim (Bool-cases (ltb (stated_header_len y) 20 || ltb (length y) (stated_header_len y))) [
      | inl bad ↦ inr (λ k. ground arith)
      | inr good ↦ inl (ground arith)
    ]

module _ (net : ByteOrder) where
  pub header_len_ok :
      (y : List ℕ) → 20 ≤ length y → Header.header_len net y ≡ ok (stated_header_len y)
  unfolding Header.header_len
  header_len_ok y h =
      let raw : ℕ = get_or y 12 0 * 256 + get_or y 13 0 in
      rw
        (field_u16_ok net 12 y (omega arith), bit_and_high 12 15 raw, bit_and_mask 4 (raw / 2 ^ 12))
        (ap ok (omega arith))

  module _ (P : PktMut) (L : IsPktMut P) (b : P.Buffer) (f y : List ℕ) (at : Holds P L b f y) where
    header_len-Holds : 20 ≤ length y → header_len net P.pkt_buf.buf b ≡ ok (stated_header_len y)
    unfolding header_len get
    header_len-Holds h =
        ap (Header.header_len net) (Laws.chunk-Holds P L b f y at) ∙ header_len_ok y h

    pub parse-accepts : HasSegment y → parse net P.pkt_buf.buf b ≡ ok (inl b)
    unfolding parse
    parse-accepts h = rw (
      Laws.chunk-Holds P L b f y at,
      le→ltb 20 (length y) (omega arith),
      header_len-Holds (omega arith),
      le→ltb 20 (stated_header_len y) h.0,
      le→ltb (stated_header_len y) (length y) h.1,
    )

    parse-rejects : ¬ HasSegment y → parse net P.pkt_buf.buf b ≡ ok (inr b)
    unfolding parse
    parse-rejects h = rw (Laws.chunk-Holds P L b f y at) (elim (Bool-cases (ltb (length y) 20)) [
      | inl short ↦ rw short
      | inr long ↦
          rw (long, header_len-Holds (ltb-false (length y) 20 long))
            (elim (Bool-cases
              (ltb (stated_header_len y) 20 || ltb (length y) (stated_header_len y))) [
                | inl bad ↦ rw bad
                | inr good ↦ absurd (h (ground arith))
              ])
    ])

    pub payload-Gives :
        HasSegment y
        → Gives P L
            (payload net P.pkt_buf.buf b)
            (f ++ take (stated_header_len y) y)
            (drop (stated_header_len y) y)
    unfolding payload
    payload-Gives h =
        rw (header_len-Holds (omega arith))
          (Laws.advance-Gives P L b f y at (stated_header_len y) h.1)

    pub option_bytes_ok :
        HasSegment y
        → option_bytes net P.pkt_buf.buf b ≡ ok (take (stated_header_len y - 20) (drop 20 y))
    unfolding option_bytes
    option_bytes_ok h =
        rw (header_len-Holds (omega arith), Laws.chunk-Holds P L b f y at)
          (slice_ok y 20 (stated_header_len y) h.0 h.1)

    -- On a sound buffer that holds `y` after `f`, where `f` is the headroom, `parse` returns, without a
    -- panic: if the header at the front of `y` states a header length of at least 20 and `y` has as
    -- many bytes, it accepts, `option_bytes` are the bytes from the twentieth up to the header length,
    -- and `payload` gives the bytes behind it; otherwise it gives the buffer back as an error.
    pub parse_decides_tcp :
        (HasSegment y
          × (parse net P.pkt_buf.buf b ≡ ok (inl b))
          × (option_bytes net P.pkt_buf.buf b ≡ ok (take (stated_header_len y - 20) (drop 20 y)))
          × Gives P L
              (payload net P.pkt_buf.buf b)
              (f ++ take (stated_header_len y) y)
              (drop (stated_header_len y) y))
        ⊎ ((¬ HasSegment y) × (parse net P.pkt_buf.buf b ≡ ok (inr b)))
    parse_decides_tcp = elim (HasSegment-cases y) [
      | inl h ↦ inl (h, parse-accepts h, option_bytes_ok h, payload-Gives h)
      | inr h ↦ inr (h, parse-rejects h)
    ]

-- ===== src/Ipv6/Exchange.antt =====
-- IPv6 packets taken apart and put together.
use rpkt.Base.{
  ℕ, ◌+◌, ◌-◌, ◌≤◌, ◌<◌, ◌^◌, List, ◌++◌, ok, ◌≡◌, ◌∙◌, length, take, drop, ◌⊎◌, inl, inr, arith,
  leb, leb→le, leb-false, Bool-cases,
}
use rpkt.Extern.{ByteOrder}
use rpkt.Traits.{PktMut, IsPktMut}
use rpkt.Packet.Laws.{Holds, Gives}
use rpkt.Ipv6.Packet.{parse, payload, prepend_header}
use rpkt.Ipv6.Laws.{
  stated_len, HasPacket, packet, length-packet, stated_len-packet, drop-take-packet, parse-accepts,
  parse-rejects, payload-Gives, prepend_header-Gives,
}

module _ (net : ByteOrder) (P : PktMut) (L : IsPktMut P) (b : P.Buffer) (f y : List ℕ)
    (at : Holds P L b f y) where
  -- On a sound buffer that holds `y` after `f`, where `f` is the headroom, `parse` returns, without a
  -- panic: if `y` has the 40 bytes of the header and as many more as its length field states, it
  -- accepts, and `payload` gives these bytes; otherwise it gives the buffer back as an error.
  pub parse_decides_ipv6 :
      (HasPacket y
        × (parse net P.pkt_buf.buf b ≡ ok (inl b))
        × Gives P L
            (payload net P.pkt_buf b)
            (f ++ take 40 (take (40 + stated_len y) y))
            (drop 40 (take (40 + stated_len y) y)))
      ⊎ ((¬ HasPacket y) × (parse net P.pkt_buf.buf b ≡ ok (inr b)))
  parse_decides_ipv6 = elim (Bool-cases (leb (40 + stated_len y) (length y))) [
    | inl e ↦
        let h : HasPacket y = leb→le (40 + stated_len y) (length y) e in
        inl (h, parse-accepts net P L b f y at h, payload-Gives net P L b f y at h)
    | inr e ↦
        let h : length y < 40 + stated_len y = leb-false (40 + stated_len y) (length y) e in
        inr ((λ k. omega arith), parse-rejects net P L b f y at h)
  ]

  -- With 40 bytes of headroom and fewer than 2 ^ 16 bytes `y`, `prepend_header` of a header of at
  -- least 40 bytes returns a packet: its bytes are the first 40 of the header, with the length field
  -- set to the length of `y`, and `y`; the rest of the headroom is as it was. `parse` accepts the
  -- packet and its `payload` holds `y`.
  pub payload-prepend_header_ipv6 :
      (header : List ℕ)
      → 40 ≤ length header
      → 40 ≤ length f
      → length y < 2 ^ 16
      → (p : P.Buffer) × (prepend_header net P b header ≡ ok p)
        × Holds P L p (take (length f - 40) f) (packet header y)
        × (parse net P.pkt_buf.buf p ≡ ok (inl p))
        × ((q : P.Buffer) × (payload net P.pkt_buf p ≡ ok q) × L.IsSound q × (L.body q ≡ y))
  payload-prepend_header_ipv6 header h room k =
      let (p, e, hp) = prepend_header-Gives net P L b f y at header h room k in
      let valid : HasPacket (packet header y) =
        omega (arith, stated_len-packet header y h k, length-packet header y h) in
      let (q, e', (s, fr, bo)) = payload-Gives net P L p _ (packet header y) hp valid in
      (
        p,
        e,
        hp,
        parse-accepts net P L p _ (packet header y) hp valid,
        (q, e', s, bo ∙ drop-take-packet header y h k),
      )

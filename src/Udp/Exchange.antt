-- ===== src/Udp/Exchange.antt =====
-- Datagrams taken apart and put together.
use rpkt.Base.{
  ℕ, ◌+◌, ◌-◌, ◌≤◌, ◌<◌, ◌^◌, List, ◌++◌, ok, ◌≡◌, ◌∙◌, length, take, drop, ◌⊎◌, inl, inr,
}
use rpkt.Extern.{ByteOrder}
use rpkt.Traits.{PktMut, IsPktMut}
use rpkt.Packet.Laws.{Holds, Gives}
use rpkt.Udp.Packet.{parse, payload, prepend_header}
use rpkt.Udp.Laws.{
  stated_len, HasDatagram, HasDatagram-cases, datagram, datagram-HasDatagram, drop-take-datagram,
  parse-accepts, parse-rejects, payload-Gives, prepend_header-Gives,
}

module _ (net : ByteOrder) (P : PktMut) (L : IsPktMut P) (b : P.Buffer) (f y : List ℕ)
    (at : Holds P L b f y) where
  -- On a sound buffer that holds `y` after `f`, where `f` is the headroom, `parse` returns, without a
  -- panic: if 8 or more bytes are stated by the length field of `y` and `y` has as many, it accepts,
  -- and `payload` gives the bytes from the eighth up to the stated length; otherwise it gives the
  -- buffer back as an error.
  pub parse_decides_udp :
      (HasDatagram y
        × (parse net P.pkt_buf.buf b ≡ ok (inl b))
        × Gives P L
            (payload net P.pkt_buf b)
            (f ++ take 8 (take (stated_len y) y))
            (drop 8 (take (stated_len y) y)))
      ⊎ ((¬ HasDatagram y) × (parse net P.pkt_buf.buf b ≡ ok (inr b)))
  parse_decides_udp = elim (HasDatagram-cases y) [
    | inl h ↦ inl (h, parse-accepts net P L b f y at h, payload-Gives net P L b f y at h)
    | inr h ↦ inr (h, parse-rejects net P L b f y at h)
  ]

  -- With 8 bytes of headroom and fewer than 2 ^ 16 - 8 bytes `y`, `prepend_header` of a header of at
  -- least 8 bytes returns a packet: its bytes are the first 8 of the header, with the length field
  -- set to the total, and `y`; the rest of the headroom is as it was. `parse` accepts the packet and
  -- its `payload` holds `y`.
  pub payload-prepend_header_udp :
      (header : List ℕ)
      → 8 ≤ length header
      → 8 ≤ length f
      → 8 + length y < 2 ^ 16
      → (p : P.Buffer) × (prepend_header net P b header ≡ ok p)
        × Holds P L p (take (length f - 8) f) (datagram header y)
        × (parse net P.pkt_buf.buf p ≡ ok (inl p))
        × ((q : P.Buffer) × (payload net P.pkt_buf p ≡ ok q) × L.IsSound q × (L.body q ≡ y))
  payload-prepend_header_udp header h room k =
      let (p, e, hp) = prepend_header-Gives net P L b f y at header h room k in
      let valid : HasDatagram (datagram header y) = datagram-HasDatagram header y h k in
      let (q, e', (s, fr, bo)) = payload-Gives net P L p _ (datagram header y) hp valid in
      (
        p,
        e,
        hp,
        parse-accepts net P L p _ (datagram header y) hp valid,
        (q, e', s, bo ∙ drop-take-datagram header y h k),
      )

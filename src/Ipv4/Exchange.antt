-- ===== src/Ipv4/Exchange.antt =====
-- Packets taken apart and put together.
use rpkt.Base.{
  ℕ, ◌+◌, ◌-◌, ◌≤◌, ◌<◌, ◌^◌, List, ◌++◌, ok, ◌≡◌, arith, ◌∙◌, ap, length, take, drop, ◌⊎◌, inl,
  inr, le→leb,
}
use rpkt.Base.{length-append, length-take, length-drop, drop-append_le}
use rpkt.Extern.{ByteOrder}
use rpkt.Wire.Laws.{slice_ok}
use rpkt.Traits.{PktMut, IsPktMut}
use rpkt.Packet.Laws
use rpkt.Packet.Laws.{Holds, Gives, Gives-then}
use rpkt.Ipv4.Header
use rpkt.Ipv4.Packet.{parse, payload, prepend_header}
use rpkt.Ipv4.Laws.{
  stated_len, stated_header_len, HasPacket, HasPacket-cases, packet, packet-HasPacket,
  header_len_ok, drop-take-packet, filled_in, parse-accepts, parse-rejects, payload-Gives,
}

module _ (net : ByteOrder) (P : PktMut) (L : IsPktMut P) (b : P.Buffer) (f y : List ℕ)
    (at : Holds P L b f y) where
  -- On a sound buffer that holds `y` after `f`, where `f` is the headroom, `parse` returns, without a
  -- panic: if the header at the front of `y` states a header length of at least 20 and a packet
  -- length of at least that, and `y` has as many bytes, it accepts, and `payload` gives the bytes
  -- from the header length up to the packet length; otherwise it gives the buffer back as an error.
  pub parse_decides :
      (HasPacket y
        × (parse net P.pkt_buf.buf b ≡ ok (inl b))
        × Gives P L
            (payload net P.pkt_buf b)
            (f ++ take (stated_header_len y) (take (stated_len y) y))
            (drop (stated_header_len y) (take (stated_len y) y)))
      ⊎ ((¬ HasPacket y) × (parse net P.pkt_buf.buf b ≡ ok (inr b)))
  parse_decides = elim (HasPacket-cases y) [
    | inl h ↦ inl (h, parse-accepts net P L b f y at h, payload-Gives net P L b f y at h)
    | inr h ↦ inr (h, parse-rejects net P L b f y at h)
  ]

  -- The headroom bytes that become the options of a header of length `hlen`.
  abbrev options : ℕ → List ℕ
  options hlen = drop 20 (drop (length f - hlen) f)

  pub prepend_header-Gives :
      (header : List ℕ)
      → let hlen = stated_header_len header in
        20 ≤ length header
        → 20 ≤ hlen
        → hlen ≤ length f
        → hlen + length y < 2 ^ 16
        → Gives P L
            (prepend_header net P b header)
            (take (length f - hlen) f)
            (packet header (options hlen ++ y))
  unfolding prepend_header Header.as_bytes
  prepend_header-Gives header h lo room k =
      let hlen : ℕ = stated_header_len header in
      let gap : List ℕ = drop (length f - hlen) f in
      let size : length gap ≡ hlen = omega (arith, length-drop (length f - hlen) f) in
      let total : 20 + length (options hlen ++ y) < 2 ^ 16 =
        omega (arith, length-append (options hlen) y, length-drop 20 gap) in
      rw
        (
          header_len_ok header h,
          Laws.headroom-Holds P L b f y at,
          le→leb 20 hlen lo,
          le→leb hlen (length f) room,
          slice_ok header 0 20 (omega arith) h,
        )
        (Gives-then P L (Laws.move_back-Gives P L b f y at hlen room) (λ c hc.
          Gives-then P L
            (Laws.put_header-Gives P L c _ (gap ++ y) 20 (take 20 header) hc
              (omega (arith, length-take 20 header)) (omega (arith, length-append gap y)))
            (λ d hd. filled_in net P L header (options hlen ++ y) h total _ d (
              hd.0,
              hd.1,
              hd.2 ∙ ap (λ z. take 20 header ++ z) (drop-append_le 20 gap y (omega arith)),
            ))))

  -- With a header of at least 20 bytes that states a header length from 20 up to the headroom, and
  -- fewer than 2 ^ 16 bytes in all, `prepend_header` returns a packet: its bytes are the first 20 of
  -- the header with the length field set to the total, the headroom bytes behind them as options, and
  -- `y`; the rest of the headroom is as it was. `parse` accepts the packet and its `payload` holds
  -- `y`.
  pub payload-prepend_header :
      (header : List ℕ)
      → let hlen = stated_header_len header in
        20 ≤ length header
        → 20 ≤ hlen
        → hlen ≤ length f
        → hlen + length y < 2 ^ 16
        → (p : P.Buffer) × (prepend_header net P b header ≡ ok p)
          × Holds P L p (take (length f - hlen) f) (packet header (options hlen ++ y))
          × (parse net P.pkt_buf.buf p ≡ ok (inl p))
          × ((q : P.Buffer) × (payload net P.pkt_buf p ≡ ok q) × L.IsSound q × (L.body q ≡ y))
  payload-prepend_header header h lo room k =
      let hlen : ℕ = stated_header_len header in
      let z : List ℕ = options hlen ++ y in
      let size : length (options hlen) ≡ hlen - 20 =
        omega (arith, length-drop 20 (drop (length f - hlen) f), length-drop (length f - hlen) f) in
      let total : 20 + length z ≡ hlen + length y = omega (arith, length-append (options hlen) y) in
      let (p, e, hp) = prepend_header-Gives header h lo room k in
      let valid : HasPacket (packet header z) =
        packet-HasPacket header z h lo (omega arith) (omega arith) in
      let (q, e', (s, fr, bo)) = payload-Gives net P L p _ (packet header z) hp valid in
      (
        p,
        e,
        hp,
        parse-accepts net P L p _ (packet header z) hp valid,
        (q, e', s, bo ∙ drop-take-packet header (options hlen) y h (omega arith) (omega arith)),
      )

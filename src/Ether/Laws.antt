-- ===== src/Ether/Laws.antt =====
-- `EtherPacket` over a buffer that keeps the contract of `PktMut`.
use rpkt.Base.{
  ℕ, ◌-◌, ◌≤◌, ◌<◌, List, ◌++◌, ok, ◌≡◌, ap, ◌∙◌, arith, length, take, drop, le→leb, lt→leb, inl,
  inr,
}
use rpkt.Base.{length-append, length-take, length-drop, drop_prefix}
use rpkt.Wire.Laws.{slice_ok}
use rpkt.Traits.{PktMut, IsPktMut}
use rpkt.Packet.Laws
use rpkt.Packet.Laws.{Holds, Gives, Gives-then}
use rpkt.Ether.Header
use rpkt.Ether.Packet.{parse, payload, prepend_header}

module _ (P : PktMut) (L : IsPktMut P) (b : P.Buffer) (f y : List ℕ) (at : Holds P L b f y) where
  pub parse-accepts : 14 ≤ length y → parse P.pkt_buf.buf b ≡ ok (inl b)
  unfolding parse
  parse-accepts h = rw (Laws.chunk-Holds P L b f y at, le→leb 14 (length y) h)

  pub parse-rejects : length y < 14 → parse P.pkt_buf.buf b ≡ ok (inr b)
  unfolding parse
  parse-rejects h = rw (Laws.chunk-Holds P L b f y at, lt→leb 14 (length y) h)

  pub payload-Gives :
      14 ≤ length y → Gives P L (payload P.pkt_buf.buf b) (f ++ take 14 y) (drop 14 y)
  unfolding payload
  payload-Gives h = Laws.advance-Gives P L b f y at 14 h

  pub prepend_header-Gives :
      (header : List ℕ)
      → 14 ≤ length header
      → 14 ≤ length f
      → Gives P L (prepend_header P b header) (take (length f - 14) f) (take 14 header ++ y)
  unfolding prepend_header Header.as_bytes
  prepend_header-Gives header h room =
      let gap : List ℕ = drop (length f - 14) f in
      let size : length gap ≡ 14 = omega (arith, length-drop (length f - 14) f) in
      rw
        (
          Laws.headroom-Holds P L b f y at,
          le→leb 14 (length f) room,
          slice_ok header 0 14 (omega arith) h,
        )
        (Gives-then P L (Laws.move_back-Gives P L b f y at 14 room) (λ c hc.
          let (d, e, (s, fr, bo)) =
            Laws.put_header-Gives P L c _ (gap ++ y) 14 (take 14 header) hc
              (omega (arith, length-take 14 header)) (omega (arith, length-append gap y)) in
          (d, e, (s, fr, bo ∙ ap (λ z. take 14 header ++ z) (drop_prefix 14 gap y size)))))

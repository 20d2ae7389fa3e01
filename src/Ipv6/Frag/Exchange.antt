-- ===== src/Ipv6/Frag/Exchange.antt =====
-- Fragments taken apart and put together.
use rpkt.Base.{ℕ, ◌-◌, ◌≤◌, ◌<◌, List, ◌++◌, ok, ◌≡◌, ◌∙◌, length, take, drop, ◌⊎◌, inl, inr}
use rpkt.Base.{
  arith, le→leb, lt→leb, leb, leb→le, leb-false, Bool-cases, length-append, length-take,
}
use rpkt.Base.{drop_prefix}
use rpkt.Traits.{PktMut, IsPktMut}
use rpkt.Packet.Laws
use rpkt.Packet.Laws.{Holds, Gives}
use rpkt.Packet.Fixed.{push_header_checked-Gives}
use rpkt.Ipv6.Frag.{parse, payload, prepend_header}

module _ (P : PktMut) (L : IsPktMut P) (b : P.Buffer) (f y : List ℕ) (at : Holds P L b f y) where
  parse-accepts : 8 ≤ length y → parse P.pkt_buf.buf b ≡ ok (inl b)
  unfolding parse
  parse-accepts h = rw (Laws.chunk-Holds P L b f y at, le→leb 8 (length y) h)

  payload-Gives : 8 ≤ length y → Gives P L (payload P.pkt_buf.buf b) (f ++ take 8 y) (drop 8 y)
  unfolding payload
  payload-Gives h = Laws.advance-Gives P L b f y at 8 h

  -- On a sound buffer that holds `y` after `f`, where `f` is the headroom: if `y` has at least 8 bytes,
  -- `parse` accepts and `payload` gives the bytes behind the first 8; otherwise `parse` gives the buffer
  -- back as an error.
  pub parse_decides_frag :
      ((8 ≤ length y)
        × (parse P.pkt_buf.buf b ≡ ok (inl b))
        × Gives P L (payload P.pkt_buf.buf b) (f ++ take 8 y) (drop 8 y))
      ⊎ ((length y < 8) × (parse P.pkt_buf.buf b ≡ ok (inr b)))
  unfolding parse
  parse_decides_frag = elim (Bool-cases (leb 8 (length y))) [
    | inl h ↦
        let k : 8 ≤ length y = leb→le 8 (length y) h in inl (k, parse-accepts k, payload-Gives k)
    | inr h ↦
        let k : length y < 8 = leb-false 8 (length y) h in
        inr (k, rw (Laws.chunk-Holds P L b f y at, lt→leb 8 (length y) k))
  ]

module _ (P : PktMut) (L : IsPktMut P) (b : P.Buffer) (f y : List ℕ) (at : Holds P L b f y) where
  -- With 8 bytes of headroom, `prepend_header` of a header of at least 8 bytes returns a packet: its
  -- bytes are the first 8 of the header and `y`; the rest of the headroom is as it was. `parse` accepts
  -- the packet and its `payload` holds `y`.
  pub payload-prepend_header_frag :
      (header : List ℕ)
      → 8 ≤ length header
      → 8 ≤ length f
      → (p : P.Buffer) × (prepend_header P b header ≡ ok p)
        × Holds P L p (take (length f - 8) f) (take 8 header ++ y)
        × (parse P.pkt_buf.buf p ≡ ok (inl p))
        × ((q : P.Buffer) × (payload P.pkt_buf.buf p ≡ ok q) × L.IsSound q × (L.body q ≡ y))
  unfolding prepend_header
  payload-prepend_header_frag header h room =
      let eight : length (take 8 header) ≡ 8 = omega (arith, length-take 8 header) in
      let size : 8 ≤ length (take 8 header ++ y) = omega (arith, length-append (take 8 header) y) in
      let (p, e, hp) = push_header_checked-Gives P L 8 b f y header at h room in
      let (q, e', (s, fr, bo)) = payload-Gives P L p _ (take 8 header ++ y) hp size in
      (
        p,
        e,
        hp,
        parse-accepts P L p _ (take 8 header ++ y) hp size,
        (q, e', s, bo ∙ drop_prefix 8 (take 8 header) y eight),
      )

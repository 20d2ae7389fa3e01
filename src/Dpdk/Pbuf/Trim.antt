-- ===== src/Dpdk/Pbuf/Trim.antt =====
-- `trim_off` on any sound `Pbuf`.
use rpkt.Base.{
  ℕ, ◌+◌, ◌-◌, ◌≤◌, ◌<◌, leb, ltb, ◌==◌, ◌&&◌, Bool-cases, leb→le, leb-false, ltb→lt, ltb-false,
  List, ◌∷◌, ok, panic, take, length, ◌≡◌, ◌⊎◌, inl, inr, refl, sym, ap, ◌∙◌, arith, length-take,
}
use rpkt.Dpdk.Mbuf.{Mbuf, len, truncate}
use rpkt.Dpdk.Mbuf.Valid.{IsMbuf, total, bytes, length-bytes}
use rpkt.Dpdk.Mbuf.Truncate.{truncate-take}
use rpkt.Dpdk.Mbuf.Parts.{IsShort, truncate-IsShort}
use rpkt.Dpdk.Pbuf.{
  Pbuf, cursor, remaining, chunk_headroom, trim_off, advance_common, reset, sub_usize,
}
use rpkt.Dpdk.Pbuf.Sound.{
  IsPbuf, cursor_ok, remaining_ok, cursor-bound, chunk_headroom_ok, len_bounds,
}
use rpkt.Dpdk.Pbuf.Seek.{reset-Lands}

-- A sound `Pbuf` with these bytes and this cursor.
abbrev pub Trimmed : List ℕ → ℕ → Pbuf → Type 0
Trimmed y pos p' = IsPbuf p' × (bytes p'.mbuf_head ≡ y) × (cursor p' ≡ pos)

module _ (p : Pbuf) (s : IsPbuf p) (n : ℕ) (m : Mbuf) (v : IsMbuf m)
    (t : truncate p.mbuf_head n ≡ ok m) (b : bytes m ≡ take n (bytes p.mbuf_head))
    (above : cursor p ≤ n) (within : n ≤ p.mbuf_head.first.pkt_len) where
  new_len : m.first.pkt_len ≡ n
  new_len = omega (
    arith,
    length-bytes m v,
    length-bytes p.mbuf_head s.valid,
    ap length b,
    length-take n (bytes p.mbuf_head),
  )

  -- The current segment was freed.
  freed-Trimmed :
      Trimmed
        (take n (bytes p.mbuf_head))
        (cursor p)
        (advance_common (reset (record p { mbuf_head = m })) (cursor p))
  freed-Trimmed =
      let (q, same, at) =
        reset-Lands (record p { mbuf_head = m }) (cursor p) v (omega (arith, new_len)) in
      (q, ap bytes same ∙ b, at)

  module _ (below : total s.pre < n) where
    short : IsShort n s.pre s.seg (m.first ∷ m.rest)
    short = truncate-IsShort p.mbuf_head m n s.pre s.seg s.post s.valid s.parts within below t

    abbrev cut_chunk : Pbuf
    cut_chunk = record p { mbuf_head = m; chunk_len = sub_usize n (cursor p); segs_len = n }

    -- The new end lies in the current segment.
    cut-Trimmed : n < p.segs_len → Trimmed (take n (bytes p.mbuf_head)) (cursor p) cut_chunk
    cut-Trimmed h =
        let c : IsShort n s.pre s.seg (m.first ∷ m.rest) = short in
        let at : cursor p ≡ total s.pre + (s.seg.data_len - p.chunk_len) = cursor_ok p s in
        let (small, all) = len_bounds p s in
        let size : c.here.data_len + total s.pre ≡ n = c.cut (omega (arith, s.reach)) in
        let left : sub_usize n (cursor p) ≡ n - cursor p = omega arith in
        let q : IsPbuf cut_chunk = record {
          valid = v;
          pre = c.front;
          seg = c.here;
          post = c.behind;
          parts = c.parts;
          place = s.place ∙ sym c.places;
          reach = omega (arith, c.sums);
          inside = omega (arith, s.inside);
          start = omega (arith, c.off, s.start, s.inside);
          live = inr (sym new_len);
        } in
        (q, b, cursor_ok cut_chunk q ∙ omega (arith, c.sums, s.inside))

    -- The new end lies behind the current segment.
    kept-Trimmed :
        p.segs_len ≤ n
        → Trimmed (take n (bytes p.mbuf_head)) (cursor p) (record p { mbuf_head = m })
    kept-Trimmed h =
        let c : IsShort n s.pre s.seg (m.first ∷ m.rest) = short in
        let at : cursor p ≡ total s.pre + (s.seg.data_len - p.chunk_len) = cursor_ok p s in
        let size : c.here.data_len ≡ s.seg.data_len = c.whole (omega (arith, s.reach)) in
        let q : IsPbuf (record p { mbuf_head = m }) = record {
          valid = v;
          pre = c.front;
          seg = c.here;
          post = c.behind;
          parts = c.parts;
          place = s.place ∙ sym c.places;
          reach = omega (arith, c.sums, s.reach);
          inside = omega (arith, s.inside);
          start = omega (arith, c.off, s.start);
          live = elim s.live [ inl full ↦ inl full | inr end ↦ inr (omega (arith, new_len)) ];
        } in
        (q, b, cursor_ok (record p { mbuf_head = m }) q ∙ omega (arith, c.sums))

-- `trim_off` of a sound `Pbuf` panics for more bytes than remain; it then returns a sound one at the same
-- position, over the bytes of the packet without the last `cnt`.
pub trim_off-take :
    (p : Pbuf) (cnt : ℕ)
    → IsPbuf p
    → ((cnt ≤ remaining p)
        × ((p' : Pbuf) × (trim_off p cnt ≡ ok p')
            × Trimmed (take (p.mbuf_head.first.pkt_len - cnt) (bytes p.mbuf_head)) (cursor p) p'))
      ⊎ ((remaining p < cnt) × (trim_off p cnt ≡ panic))
unfolding trim_off len
trim_off-take p cnt s = elim (Bool-cases (leb cnt (remaining p))) [
  | inr beyond ↦ inr (leb-false cnt (remaining p) beyond, rw beyond refl)
  | inl fits ↦
      let h : cnt ≤ remaining p = leb→le cnt (remaining p) fits in
      let m : Mbuf = p.mbuf_head in
      let n : ℕ = m.first.pkt_len - cnt in
      let left : remaining p ≡ m.first.pkt_len - cursor p = remaining_ok p s in
      let at : cursor p ≡ total s.pre + (s.seg.data_len - p.chunk_len) = cursor_ok p s in
      let room : chunk_headroom p ≡ s.seg.data_len - p.chunk_len = chunk_headroom_ok p s in
      let bound : cursor p ≤ m.first.pkt_len = cursor-bound p s in
      let (small, all) = len_bounds p s in
      let shorter : sub_usize m.first.pkt_len cnt ≡ n = omega arith in
      let above : cursor p ≤ n = omega arith in
      inl (
        h,
        elim (truncate-take m n s.valid) [
          | inr (over, e) ↦ absurd (omega arith)
          | inl (w, (m', e, v', b, l)) ↦
              rw (fits, shorter, e)
                (elim (Bool-cases ((cursor p == n) && (chunk_headroom p == 0))) [
                  | inl gone ↦ rw gone (_, refl, freed-Trimmed p s n m' v' e b above (omega arith))
                  | inr stays ↦
                      let below : total s.pre < n = ground (arith, room, at, above) in
                      elim (Bool-cases (ltb n p.segs_len)) [
                        | inl inside ↦
                            rw (stays, inside)
                              (
                                _,
                                refl,
                                cut-Trimmed p s n m' v' e b above (omega arith) below
                                    (ltb→lt n p.segs_len inside),
                              )
                        | inr behind ↦
                            rw (stays, behind)
                              (
                                _,
                                refl,
                                kept-Trimmed p s n m' v' e b above (omega arith) below
                                    (ltb-false n p.segs_len behind),
                              )
                      ]
                ])
        ],
      )
]

-- ===== src/Dpdk/Pbuf/Moves.antt =====
-- `advance` and `move_back` on any sound `Pbuf`.
use rpkt.Base.{
  ℕ, ◌+◌, ◌-◌, ◌≤◌, ◌<◌, leb, ltb, Bool-cases, leb→le, leb-false, ltb-false, ok, panic, ◌≡◌, ◌⊎◌,
  inl, inr, refl, ◌∙◌, arith,
}
use rpkt.Dpdk.Mbuf.{len}
use rpkt.Dpdk.Mbuf.Valid.{total}
use rpkt.Dpdk.Pbuf.{
  Pbuf, cursor, remaining, chunk_headroom, advance, advance_slow, advance_common, move_back,
  move_back_slow, reset, add_usize, sub_usize,
}
use rpkt.Dpdk.Pbuf.Sound.{
  IsPbuf, cursor_ok, remaining_ok, cursor-bound, chunk_headroom_ok, len_bounds, seg-IsSeg,
}
use rpkt.Dpdk.Pbuf.Seek.{Lands, forward-Lands, reset-Lands}

module _ (p : Pbuf) (s : IsPbuf p) where
  -- The same segment, with a chunk of `n` bytes.
  abbrev with_chunk : ℕ → ℕ → Pbuf
  with_chunk start n = record p { chunk_start = start; chunk_len = n }

  with_chunk-Lands :
      (start n target : ℕ)
      → (0 < n) ⊎ (p.segs_len ≡ p.mbuf_head.first.pkt_len)
      → n ≤ s.seg.data_len
      → start ≡ s.seg.data_off + (s.seg.data_len - n)
      → target + n ≡ total s.pre + s.seg.data_len
      → Lands p.mbuf_head target (with_chunk start n)
  with_chunk-Lands start n target full fits e f =
      let q : IsPbuf (with_chunk start n) = record {
        valid = s.valid;
        pre = s.pre;
        seg = s.seg;
        post = s.post;
        parts = s.parts;
        place = s.place;
        reach = s.reach;
        inside = fits;
        start = e;
        live = full;
      } in
      (q, refl, cursor_ok (with_chunk start n) q ∙ omega arith)

  -- `advance` of a sound `Pbuf` panics beyond the end of the packet; it then returns a sound one over
  -- the same packet with the cursor as many bytes further.
  pub advance-Lands :
      (cnt : ℕ)
      → ((cnt ≤ remaining p)
          × ((p' : Pbuf) × (advance p cnt ≡ ok p') × Lands p.mbuf_head (cursor p + cnt) p'))
        ⊎ ((remaining p < cnt) × (advance p cnt ≡ panic))
  unfolding advance advance_slow len
  advance-Lands cnt =
      let at : cursor p ≡ total s.pre + (s.seg.data_len - p.chunk_len) = cursor_ok p s in
      let left : remaining p ≡ p.mbuf_head.first.pkt_len - cursor p = remaining_ok p s in
      let bound : cursor p ≤ p.mbuf_head.first.pkt_len = cursor-bound p s in
      let (small, all) = len_bounds p s in
      let same : sub_usize p.mbuf_head.first.pkt_len (cursor p) ≡ remaining p = omega arith in
      elim (Bool-cases (leb p.chunk_len cnt)) [
        | inl slow ↦ elim (Bool-cases (leb cnt (remaining p))) [
          | inl fits ↦
              let h : cnt ≤ remaining p = leb→le cnt (remaining p) fits in
              let target : add_usize (cursor p) cnt ≡ cursor p + cnt = omega arith in
              inl (
                h,
                (
                  advance_common p (cursor p + cnt),
                  rw (slow, same, fits, target) refl,
                  forward-Lands p s (cursor p + cnt) (omega arith) (omega arith),
                ),
              )
          | inr beyond ↦ inr (leb-false cnt (remaining p) beyond, rw (slow, same, beyond) refl)
        ]
        | inr fast ↦
            let h : cnt < p.chunk_len = leb-false p.chunk_len cnt fast in
            inl (
              omega (arith, s.inside),
              (
                with_chunk (add_usize p.chunk_start cnt) (sub_usize p.chunk_len cnt),
                rw fast refl,
                with_chunk-Lands (add_usize p.chunk_start cnt) (sub_usize p.chunk_len cnt)
                    (cursor p + cnt) (inl (omega (arith, s.inside))) (omega (arith, s.inside))
                    (omega (arith, s.start, s.inside, seg-IsSeg p s)) (omega (arith, s.inside)),
              ),
            )
      ]

  -- `move_back` of a sound `Pbuf` panics in front of the packet; it then returns a sound one over the
  -- same packet with the cursor as many bytes back.
  pub move_back-Lands :
      (cnt : ℕ)
      → ((cnt ≤ cursor p)
          × ((p' : Pbuf) × (move_back p cnt ≡ ok p') × Lands p.mbuf_head (cursor p - cnt) p'))
        ⊎ ((cursor p < cnt) × (move_back p cnt ≡ panic))
  unfolding move_back move_back_slow
  move_back-Lands cnt =
      let at : cursor p ≡ total s.pre + (s.seg.data_len - p.chunk_len) = cursor_ok p s in
      let bound : cursor p ≤ p.mbuf_head.first.pkt_len = cursor-bound p s in
      let room : chunk_headroom p ≡ s.seg.data_len - p.chunk_len = chunk_headroom_ok p s in
      let (small, all) = len_bounds p s in
      elim (Bool-cases (ltb (chunk_headroom p) cnt)) [
        | inl slow ↦ elim (Bool-cases (leb cnt (cursor p))) [
          | inl fits ↦
              let h : cnt ≤ cursor p = leb→le cnt (cursor p) fits in
              let target : sub_usize (cursor p) cnt ≡ cursor p - cnt = omega arith in
              inl (
                h,
                (
                  advance_common (reset p) (cursor p - cnt),
                  rw (slow, fits, target) refl,
                  reset-Lands p (cursor p - cnt) s.valid (omega arith),
                ),
              )
          | inr beyond ↦ inr (leb-false cnt (cursor p) beyond, rw (slow, beyond) refl)
        ]
        | inr fast ↦
            let h : cnt ≤ chunk_headroom p = ltb-false (chunk_headroom p) cnt fast in
            inl (
              omega (arith, s.inside),
              (
                with_chunk (sub_usize p.chunk_start cnt) (add_usize p.chunk_len cnt),
                rw fast refl,
                with_chunk-Lands (sub_usize p.chunk_start cnt) (add_usize p.chunk_len cnt)
                    (cursor p - cnt)
                    (elim s.live [
                      | inl some ↦ inl (omega (arith, s.inside, seg-IsSeg p s))
                      | inr end ↦ inr end
                    ])
                    (omega (arith, s.inside, seg-IsSeg p s))
                    (omega (arith, s.start, s.inside, seg-IsSeg p s))
                    (omega (arith, s.inside, seg-IsSeg p s)),
              ),
            )
      ]

-- ===== src/Dpdk/Pbuf/Sound.antt =====
-- The invariant of `Pbuf`, and what its readings are under it.
use rpkt.Base.{
  ℕ, ◌+◌, ◌-◌, ◌≤◌, ◌<◌, ◌^◌, List, [], ◌∷◌, ◌++◌, All, length, take, drop, ◌≡◌, ◌⊎◌, refl, sym, ap,
  ap₂, ◌∙◌, arith, subst,
}
use rpkt.Base.{
  drop-drop, drop-take, take-all, drop_prefix, length-drop, take-append_le, drop-append_le,
}
use rpkt.Dpdk.Mbuf.{RteMbuf, Mbuf, seg_data, len}
use rpkt.Dpdk.Mbuf.Valid.{
  IsSeg, total, IsMbuf, bytes_of, bytes, bytes_of-append, length-bytes_of, length-seg_data,
  total-append, total-bound,
}
use rpkt.Dpdk.Pbuf.{Pbuf, seg_at, cur_seg, cursor, remaining, chunk, chunk_headroom, new}

-- The current segment stands behind `pre`; the chunk is its last `chunk_len` bytes. An empty chunk
-- stands at the end of the packet.
pub record IsPbuf (p : Pbuf) : Type 0 where
  pub valid : IsMbuf p.mbuf_head
  pub pre : List RteMbuf
  pub seg : RteMbuf
  pub post : List RteMbuf
  pub parts : p.mbuf_head.first ∷ p.mbuf_head.rest ≡ pre ++ (seg ∷ post)
  pub place : p.mbuf_cur ≡ length pre
  pub reach : p.segs_len ≡ total pre + seg.data_len
  pub inside : p.chunk_len ≤ seg.data_len
  pub start : p.chunk_start ≡ seg.data_off + (seg.data_len - p.chunk_len)
  pub live : (0 < p.chunk_len) ⊎ (p.segs_len ≡ p.mbuf_head.first.pkt_len)

pub seg_at-append :
    (pre : List RteMbuf) (seg : RteMbuf) (post : List RteMbuf)
    → seg_at (pre ++ (seg ∷ post)) (length pre) ≡ seg
seg_at-append [] seg post = refl
seg_at-append (x ∷ pre) seg post = seg_at-append pre seg post

pub drop-behind :
    (pre : List RteMbuf) (seg : RteMbuf) (post : List RteMbuf)
    → drop (length pre + 1) (pre ++ (seg ∷ post)) ≡ post
drop-behind pre seg post =
    sym (drop-drop (length pre) 1 (pre ++ (seg ∷ post)))
    ∙ ap (drop 1) (drop_prefix (length pre) pre (seg ∷ post) refl)

pub All-right : (pre xs : List RteMbuf) → All IsSeg (pre ++ xs) → All IsSeg xs
All-right [] xs h = h
All-right (x ∷ pre) xs h = All-right pre xs h.1

All-left : (pre xs : List RteMbuf) → All IsSeg (pre ++ xs) → All IsSeg pre
All-left [] xs h = tt
All-left (x ∷ pre) xs h = (h.0, All-left pre xs h.1)

module _ (p : Pbuf) (s : IsPbuf p) where
  pub cur_seg_ok : cur_seg p ≡ s.seg
  cur_seg_ok =
      ap₂ (λ (xs : List RteMbuf) (i : ℕ). seg_at xs i) s.parts s.place
      ∙ seg_at-append s.pre s.seg s.post

  segs-IsSeg : All IsSeg (s.pre ++ (s.seg ∷ s.post))
  segs-IsSeg = subst (All IsSeg) s.parts s.valid.segs

  pub seg-IsSeg : IsSeg s.seg
  seg-IsSeg = (All-right s.pre (s.seg ∷ s.post) segs-IsSeg).0

  -- The packet is shorter than 2 ^ 32 bytes, and the segments up to the current one are no longer.
  pub len_bounds :
      (p.mbuf_head.first.pkt_len < 2 ^ 32)
      × (p.mbuf_head.first.pkt_len ≡ total s.pre + (s.seg.data_len + total s.post))
  len_bounds = (
    omega (
      arith,
      s.valid.packet,
      s.valid.count,
      s.valid.few,
      total-bound (p.mbuf_head.first ∷ p.mbuf_head.rest) s.valid.segs,
    ),
    s.valid.packet ∙ ap total s.parts ∙ total-append s.pre (s.seg ∷ s.post),
  )

  pub cursor_ok : cursor p ≡ total s.pre + (s.seg.data_len - p.chunk_len)
  unfolding cursor
  cursor_ok = omega (arith, s.reach, s.inside, len_bounds.0, len_bounds.1)

  pub remaining_ok : remaining p ≡ p.mbuf_head.first.pkt_len - cursor p
  unfolding remaining len
  remaining_ok = omega (arith, cursor_ok, s.inside, len_bounds.0, len_bounds.1)

  pub cursor-bound : cursor p ≤ p.mbuf_head.first.pkt_len
  cursor-bound = omega (arith, cursor_ok, s.inside, len_bounds.1)

  pub chunk_headroom_ok : chunk_headroom p ≡ s.seg.data_len - p.chunk_len
  unfolding chunk_headroom
  chunk_headroom_ok =
      omega (arith, ap (λ x. x.data_len) cur_seg_ok, s.inside, seg-IsSeg.0, seg-IsSeg.1)

  -- The chunk is a prefix of the bytes from the cursor on.
  pub chunk-drop : chunk p ≡ take p.chunk_len (drop (cursor p) (bytes p.mbuf_head))
  unfolding chunk seg_data
  chunk-drop =
      let k : ℕ = s.seg.data_len - p.chunk_len in
      let front : length (bytes_of s.pre) ≡ total s.pre =
        length-bytes_of s.pre (All-left s.pre (s.seg ∷ s.post) segs-IsSeg) in
      let size : length (seg_data s.seg) ≡ s.seg.data_len = length-seg_data s.seg seg-IsSeg in
      let here : List ℕ = drop s.seg.data_off s.seg.buf in
      let left : chunk_of s.seg ≡ take p.chunk_len (drop k (seg_data s.seg)) =
        ap (λ (n : ℕ). take p.chunk_len (drop n s.seg.buf)) s.start
        ∙ ap (take p.chunk_len) (sym (drop-drop s.seg.data_off k s.seg.buf))
        ∙ sym (drop-take k p.chunk_len here)
        ∙ ap (λ (n : ℕ). drop k (take n here)) {y = s.seg.data_len} (omega (arith, s.inside))
        ∙ sym (
            take-all p.chunk_len (drop k (seg_data s.seg))
              (omega (arith, s.inside, length-drop k (seg_data s.seg)))) in
      ap chunk_of cur_seg_ok
      ∙ left
      ∙ sym (
          ap (take p.chunk_len) (
            ap₂ (λ (n : ℕ) (xs : List RteMbuf). drop n (bytes_of xs)) cursor_ok s.parts
            ∙ ap (drop (total s.pre + k)) (bytes_of-append s.pre (s.seg ∷ s.post))
            ∙ sym (drop-drop (total s.pre) k (bytes_of s.pre ++ bytes_of (s.seg ∷ s.post)))
            ∙ ap (drop k)
                (drop_prefix (total s.pre) (bytes_of s.pre) (bytes_of (s.seg ∷ s.post)) front)
            ∙ drop-append_le k (seg_data s.seg) (bytes_of s.post) (omega arith))
          ∙ take-append_le p.chunk_len (drop k (seg_data s.seg)) (bytes_of s.post)
              (omega (arith, s.inside, length-drop k (seg_data s.seg))))
    where
      chunk_of : RteMbuf → List ℕ
      chunk_of seg = take p.chunk_len (drop p.chunk_start seg.buf)

-- A new `Pbuf` of a packet whose first segment is not empty, or that is empty.
pub new-IsPbuf :
    (m : Mbuf)
    → IsMbuf m
    → (0 < m.first.data_len) ⊎ (m.first.data_len ≡ m.first.pkt_len)
    → IsPbuf (new m)
unfolding new
new-IsPbuf m v h = record {
  valid = v;
  pre = [];
  seg = m.first;
  post = m.rest;
  parts = refl;
  place = refl;
  reach = omega arith;
  inside = omega arith;
  start = omega arith;
  live = h;
}

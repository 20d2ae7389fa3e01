-- ===== src/Dpdk/Pbuf/Seek.antt =====
-- `advance_common` puts the cursor at its target.
use rpkt.Base.{
  ℕ, ◌+◌, ◌-◌, ◌≤◌, ◌<◌, ◌^◌, leb, Bool-cases, leb→le, leb-false, List, [], ◌∷◌, ◌++◌, All, length,
  drop, ◌≡◌, ◌⊎◌, inl, inr, refl, sym, ap, ap₂, ◌∙◌, subst, arith, append_assoc, length-append,
}
use rpkt.Dpdk.Mbuf.{RteMbuf, Mbuf}
use rpkt.Dpdk.Mbuf.Valid.{IsSeg, total, IsMbuf, total-append, total-bound}
use rpkt.Dpdk.Pbuf.{Pbuf, Stop, seek, stop_at, advance_common, cur_seg, cursor, reset, sub_usize}
use rpkt.Dpdk.Pbuf.Sound.{IsPbuf, All-right, drop-behind, cursor_ok, cur_seg_ok, len_bounds}

-- A stop in the chain, whose segment holds the target.
pub record IsStop (segs : List RteMbuf) (target : ℕ) (stop : Stop) : Type 0 where
  pub pre : List RteMbuf
  pub post : List RteMbuf
  pub parts : segs ≡ pre ++ (stop.seg ∷ post)
  pub place : stop.place ≡ length pre
  pub reach : stop.reach ≡ total pre + stop.seg.data_len
  pub behind : total pre ≤ target
  pub before : target ≤ stop.reach
  pub live : (target < stop.reach) ⊎ (stop.reach ≡ total segs)

pub seek-IsStop :
    (segs : List RteMbuf) (target : ℕ) (pre : List RteMbuf) (seg : RteMbuf) (post : List RteMbuf)
    → total segs < 2 ^ 32
    → target ≤ total segs
    → segs ≡ pre ++ (seg ∷ post)
    → total pre ≤ target
    → IsStop segs target (seek target (length pre) seg post (total pre + seg.data_len))
unfolding seek
seek-IsStop segs target pre seg [] small h e behind =
    let all : total segs ≡ total pre + (seg.data_len + 0) =
      ap total e ∙ total-append pre (seg ∷ []) in
    record {
      pre = pre;
      post = [];
      parts = e;
      place = refl;
      reach = refl;
      behind = behind;
      before = omega arith;
      live = inr (omega arith);
    }
seek-IsStop segs target pre seg (next ∷ more) small h e behind =
    let all : total segs ≡ total pre + (seg.data_len + (next.data_len + total more)) =
      ap total e ∙ total-append pre (seg ∷ next ∷ more) in
    elim (Bool-cases (leb (total pre + seg.data_len) target)) [
      | inl later ↦
          let h' : total pre + seg.data_len ≤ target =
            leb→le (total pre + seg.data_len) target later in
          let pre' : List RteMbuf = pre ++ (seg ∷ []) in
          let size : total pre' ≡ total pre + (seg.data_len + 0) = total-append pre (seg ∷ []) in
          let e' : segs ≡ pre' ++ (next ∷ more) =
            e ∙ sym (append_assoc pre (seg ∷ []) (next ∷ more)) in
          rw later (
            subst (IsStop segs target)
              (ap₂ (λ (a b : ℕ). seek target a next more b) (length-append pre (seg ∷ []))
                (omega arith))
              (seek-IsStop segs target pre' next more small h e' (omega arith)))
      | inr here ↦ rw here (record {
        pre = pre;
        post = next ∷ more;
        parts = e;
        place = refl;
        reach = refl;
        behind = behind;
        before = omega (arith, leb-false (total pre + seg.data_len) target here);
        live = inl (leb-false (total pre + seg.data_len) target here);
      })
    ]

-- A `Pbuf` over the same packet, with the cursor at `target`.
abbrev pub Lands : Mbuf → ℕ → Pbuf → Type 0
Lands m target p = IsPbuf p × (p.mbuf_head ≡ m) × (cursor p ≡ target)

stop_at-Lands :
    (p : Pbuf) (target : ℕ) (stop : Stop)
    → IsMbuf p.mbuf_head
    → p.mbuf_head.first.pkt_len < 2 ^ 32
    → IsStop (p.mbuf_head.first ∷ p.mbuf_head.rest) target stop
    → Lands p.mbuf_head target (stop_at p target stop)
unfolding stop_at
stop_at-Lands p target stop v small t =
    let all : total (p.mbuf_head.first ∷ p.mbuf_head.rest)
        ≡ total t.pre + (stop.seg.data_len + total t.post) =
      ap total t.parts ∙ total-append t.pre (stop.seg ∷ t.post) in
    let s : IsSeg stop.seg =
      (All-right t.pre (stop.seg ∷ t.post) (subst (All IsSeg) t.parts v.segs)).0 in
    let bound : stop.reach < 2 ^ 32 = omega (arith, t.reach, v.packet) in
    let len : sub_usize stop.reach target ≡ stop.reach - target = omega (arith, t.before) in
    let q : IsPbuf (stop_at p target stop) = record {
      valid = v;
      pre = t.pre;
      seg = stop.seg;
      post = t.post;
      parts = t.parts;
      place = t.place;
      reach = t.reach;
      inside = omega (arith, t.reach, t.behind);
      start = omega (arith, len, t.reach, t.behind, s.0, s.1);
      live = elim t.live [
        | inl below ↦ inl (omega arith)
        | inr end ↦ inr (omega (arith, v.packet))
      ];
    } in
    (q, refl, cursor_ok (stop_at p target stop) q ∙ omega (arith, len, t.reach, t.behind, t.before))

module _ (p : Pbuf) (s : IsPbuf p) (target : ℕ) (within : target ≤ p.mbuf_head.first.pkt_len) where
  -- From the current segment on, when the target does not lie in front of it.
  pub forward-Lands : total s.pre ≤ target → Lands p.mbuf_head target (advance_common p target)
  unfolding advance_common
  forward-Lands h =
      let segs : List RteMbuf = p.mbuf_head.first ∷ p.mbuf_head.rest in
      let small : p.mbuf_head.first.pkt_len < 2 ^ 32 = (len_bounds p s).0 in
      let stop : Stop =
        seek target p.mbuf_cur (cur_seg p) (drop (p.mbuf_cur + 1) segs) p.segs_len in
      let same : seek target (length s.pre) s.seg s.post (total s.pre + s.seg.data_len) ≡ stop =
        λ i. seek target (sym s.place i) (sym (cur_seg_ok p s) i) (sym behind i) (sym s.reach i) in
      stop_at-Lands p target stop s.valid small (
        subst (IsStop segs target) same (
          seek-IsStop segs target s.pre s.seg s.post (omega (arith, s.valid.packet))
            (omega (arith, s.valid.packet)) s.parts h))
    where
      behind : drop (p.mbuf_cur + 1) (p.mbuf_head.first ∷ p.mbuf_head.rest) ≡ s.post
      behind =
          ap₂ (λ (n : ℕ) (xs : List RteMbuf). drop (n + 1) xs) s.place s.parts
          ∙ drop-behind s.pre s.seg s.post

-- From the first segment on, to any target.
pub reset-Lands :
    (p : Pbuf) (target : ℕ)
    → IsMbuf p.mbuf_head
    → target ≤ p.mbuf_head.first.pkt_len
    → Lands p.mbuf_head target (advance_common (reset p) target)
unfolding advance_common
reset-Lands p target v h =
    let segs : List RteMbuf = p.mbuf_head.first ∷ p.mbuf_head.rest in
    let small : total segs < 2 ^ 32 =
      omega (arith, v.packet, v.count, v.few, total-bound segs v.segs) in
    stop_at-Lands (reset p) target _ v (omega (arith, v.packet)) (
      subst (λ (n : ℕ). IsStop segs target (seek target 0 p.mbuf_head.first p.mbuf_head.rest n))
        {x = 0 + p.mbuf_head.first.data_len} {y = p.mbuf_head.first.data_len} (omega arith)
        (seek-IsStop segs target [] p.mbuf_head.first p.mbuf_head.rest small
          (omega (arith, v.packet)) refl (omega arith)))

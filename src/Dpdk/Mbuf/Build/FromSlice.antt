-- ===== src/Dpdk/Mbuf/Build/FromSlice.antt =====
-- `Mbuf::from_slice` puts the whole slice into a chain of segments.
use rpkt.Base.{
  ℕ, suc, true, ◌+◌, ◌-◌, ◌*◌, ◌/◌, ◌≤◌, ◌<◌, ◌^◌, leb, ltb, ◌==◌, not, Bool-cases, lt→ltb, leb→le,
  leb-false,
}
use rpkt.Base.{
  List, [], ◌∷◌, ◌++◌, Option, none, some, Outcome, ok, length, take, drop, All, ◌≡◌, refl, arith,
  ap, ◌∙◌, sym, subst, inl, inr, ◌⊎◌,
}
use native.Mathlib.Nat.{div-mul-le_self, lt-div-mul-add, mul-le-mul_right, add-mul, one-mul}
use rpkt.Base.{take-append-drop, length-append, length-take, length-drop}
use rpkt.Wire.Laws.{slice_to_ok, slice_from_ok}
use rpkt.Dpdk.Mbuf.{Mbuf, seg_data, capacity}
use rpkt.Dpdk.Mbuf.Valid.{IsSeg, total, IsMbuf, bytes, length-bytes_of, total-bound}
use rpkt.Dpdk.Mbuf.Edit.{capacity_ok}
use rpkt.Dpdk.Mbuf.Build.{Pool, IsFresh, IsPool, count_segs, from_slice_slow, from_slice}
use rpkt.Dpdk.Mbuf.Build.Segments.{
  alloc_cases, Refuses, fresh-Filled, add_seg-Grown, fill_segs-Filling,
}

module _ (A : Pool) (cap : ℕ) (pool : IsPool A cap) where
  -- What `from_slice` gives: nothing, when the pool ran out or the slice is too long, or a buffer that
  -- holds the slice.
  abbrev pub Holds : ℕ → List ℕ → Outcome (Option Mbuf × A.State) → Type 0
  Holds max_segs source o =
      ((t : A.State) × (o ≡ ok (none, t)) × (Refuses A cap pool ⊎ (max_segs * cap < length source)))
      ⊎ ((m : Mbuf) × (t : A.State) × (o ≡ ok (some m, t)) × IsMbuf m × (bytes m ≡ source))

  module _ (max_segs : ℕ) (few : max_segs < 2 ^ 16) (some_room : 0 < cap) where
    -- The counts of a chain whose first segment is a buffer of its own.
    count_segs-IsMbuf :
        (fst_seg m : Mbuf) (n segs : ℕ)
        → IsMbuf fst_seg
        → fst_seg.rest ≡ []
        → m.first ≡ fst_seg.first
        → All IsSeg m.rest
        → length m.rest ≡ segs
        → segs < max_segs
        → total m.rest ≡ n
        → IsMbuf (count_segs A max_segs m n segs)
          × (bytes (count_segs A max_segs m n segs) ≡ bytes m)
    unfolding count_segs seg_data
    count_segs-IsMbuf fst_seg m n segs v single same a l below sum =
        let one : m.first.nb_segs ≡ 1 =
          ap (λ x. x.nb_segs) same ∙ v.count ∙ ap (λ r. suc (length r)) single in
        let len : m.first.pkt_len ≡ m.first.data_len =
          omega (
            arith,
            ap (λ x. x.pkt_len) same,
            ap (λ x. x.data_len) same,
            v.packet,
            ap total single,
          ) in
        let s : IsSeg m.first = subst IsSeg (sym same) v.segs.0 in
        let bound : total (m.first ∷ m.rest) ≤ length (m.first ∷ m.rest) * 65535 =
          total-bound (m.first ∷ m.rest) (s, a) in
        (
          record { segs = (s, a); packet = omega arith; count = omega arith; few = omega arith },
          refl,
        )

    -- The segments behind the first hold what follows its bytes.
    rest_total :
        (fst_seg m : Mbuf) (source : List ℕ)
        → IsMbuf fst_seg
        → fst_seg.rest ≡ []
        → m.first ≡ fst_seg.first
        → All IsSeg m.rest
        → bytes m ≡ bytes fst_seg ++ source
        → total m.rest ≡ length source
    rest_total fst_seg m source v single same a whole = omega (
      arith,
      ap length whole,
      ap (λ x. x.data_len) same,
      ap total single,
      length-append (bytes fst_seg) source,
      length-bytes_of (fst_seg.first ∷ fst_seg.rest) v.segs,
      length-bytes_of (m.first ∷ m.rest) (subst IsSeg (sym same) v.segs.0, a),
    )

    slow-Holds :
        (fst_seg : Mbuf) (source : List ℕ) (s : A.State)
        → IsMbuf fst_seg
        → fst_seg.rest ≡ []
        → 0 < length source
        → ((t : A.State) × (from_slice_slow A max_segs source fst_seg cap s ≡ ok (none, t))
            × (Refuses A cap pool ⊎ (max_segs * cap < cap + length source)))
          ⊎ ((m : Mbuf) × (t : A.State) × (from_slice_slow A max_segs source fst_seg cap s
                ≡ ok (some m, t))
              × IsMbuf m
              × (bytes m ≡ bytes fst_seg ++ source))
    unfolding from_slice_slow
    slow-Holds fst_seg source s v single h =
        let rounds : ℕ = (length source - 1) / cap in
        let below : rounds * cap ≤ length source - 1 = div-mul-le_self (length source - 1) cap in
        let above : length source - 1 < rounds * cap + cap = lt-div-mul-add some_room in
        let nonzero : not (cap == 0) ≡ true = ground arith in
        let segs : (rounds + 1 - 1) ≡ rounds = omega arith in
        rw (lt→ltb 0 (length source) h, nonzero, segs)
          (elim (Bool-cases (ltb (max_segs - 1) (rounds + 1))) [
            | inl many ↦ inl (
              s,
              rw many,
              inr (
                  omega (
                    arith,
                    mul-le-mul_right {m = max_segs} {n = rounds + 1} cap (ground arith),
                    add-mul rounds 1 cap,
                    one-mul cap,
                  )),
            )
            | inr fits ↦
                rw fits
                  (elim (fill_segs-Filling A cap pool max_segs rounds fst_seg source s
                    (omega arith)) [
                      | inl (t, e, out) ↦ inl (t, rw e, inl out)
                      | inr (m1, last, t, e, f1, a1, l1, n1, b1) ↦
                          elim (add_seg-Grown A cap pool max_segs m1 last t (omega arith)) [
                            | inl (t', e', out) ↦ inl (t', rw (e, e'), inl out)
                            | inr (m2, t', e', (f2, a2, l2, b2)) ↦
                                let all : All IsSeg m2.rest = a2 (a1 v.segs.1) in
                                let same : m2.first ≡ fst_seg.first = f2 ∙ f1 in
                                let whole : bytes m2 ≡ bytes fst_seg ++ source = b2 ∙ b1 in
                                let (valid, b) =
                                  count_segs-IsMbuf fst_seg m2 (length source) (rounds + 1) v single
                                    same all (omega (arith, ap length single)) (ground arith)
                                    (rest_total fst_seg m2 source v single same all whole) in
                                inr (
                                  count_segs A max_segs m2 (length source) (rounds + 1),
                                  t',
                                  rw (e, e'),
                                  valid,
                                  b ∙ whole,
                                )
                          ]
                    ])
          ])

    -- With a pool whose fresh buffers have room for `cap` bytes, `cap` positive, and `max_segs` below
    -- 2 ^ 16: `from_slice` does not panic. It gives a well-formed buffer that holds the slice, unless the
    -- pool has no buffer in some state, or the slice is longer than `max_segs` times `cap` bytes.
    pub from_slice-Holds :
        (source : List ℕ) (s : A.State) → Holds max_segs source (from_slice A max_segs source s)
    unfolding from_slice
    from_slice-Holds source s = elim (alloc_cases (A.try_alloc s)) [
      | inl (t, e) ↦ inl (t, rw (from_slice, ap (λ p. p.0) e, ap (λ p. p.1) e) refl, inl (s, t, e))
      | inr (m, t, e) ↦
          let f : IsFresh cap m = pool.alloc_fresh s t m e in
          let one : m.first.nb_segs ≡ 1 = omega (arith, f.valid.count, ap length f.single) in
          let size : capacity m ≡ ok cap =
            capacity_ok m f.valid one ∙ ap ok (omega (arith, f.room, f.empty)) in
          rw (from_slice, ap (λ p. p.0) e, ap (λ p. p.1) e, size)
            (elim (Bool-cases (leb (length source) cap)) [
              | inl fits ↦
                  let (full, done, v, single, b, n) =
                    fresh-Filled A cap pool m source f (leb→le (length source) cap fits) in
                  inr (full, t, rw (fits, done) refl, v, b)
              | inr long ↦
                  let part : List ℕ = take cap source in
                  let more : cap < length source = leb-false (length source) cap long in
                  let (full, done, v, single, b, n) =
                    fresh-Filled A cap pool m part f (omega (arith, length-take cap source)) in
                  rw
                    (
                      long,
                      slice_to_ok source cap (omega arith),
                      done,
                      slice_from_ok source cap (omega arith),
                    )
                    (elim (slow-Holds full (drop cap source) t v single
                      (omega (arith, length-drop cap source))) [
                        | inl (t', e', why) ↦ inl (
                          t',
                          e',
                          elim why [
                            | inl out ↦ inl out
                            | inr many ↦ inr (omega (arith, length-drop cap source))
                          ],
                        )
                        | inr (m', t', e', v', b') ↦ inr (
                          m',
                          t',
                          e',
                          v',
                          b' ∙ ap (λ z. z ++ drop cap source) b ∙ take-append-drop cap source,
                        )
                      ])
            ])
    ]

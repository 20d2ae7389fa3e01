-- ===== src/Dpdk/Mbuf/Build/Segments.antt =====
-- The steps of `Mbuf::from_slice`: one segment more, and the loop.
use rpkt.Base.{ℕ, zero, suc, ◌+◌, ◌*◌, ◌≤◌}
use rpkt.Base.{
  List, [], ◌∷◌, ◌++◌, Option, none, some, Outcome, ok, length, take, drop, All, All-append, ◌≡◌,
  refl, arith, ap, ◌∙◌, sym, inl, inr, ◌⊎◌,
}
use native.Mathlib.Nat.{suc-mul, zero-mul}
use rpkt.Base.{take-append-drop, length-append, length-take, length-drop, length-zero, append_assoc}
use rpkt.Wire.Laws.{slice_to_ok, slice_from_ok}
use rpkt.Dpdk.Mbuf.{Mbuf, seg_data, extend_from_slice}
use rpkt.Dpdk.Mbuf.Valid.{IsSeg, total, IsMbuf, bytes_of, bytes, bytes_of-append, length-bytes_of}
use rpkt.Dpdk.Mbuf.Edit.{appended, appended-IsMbuf, extend_from_slice_ok}
use rpkt.Dpdk.Mbuf.Build.{Pool, IsFresh, IsPool, link, add_seg, fill_segs}

pub alloc_cases :
    {S : Type 0} (r : Option Mbuf × S)
    → ((t : S) × (r ≡ (none, t))) ⊎ ((m : Mbuf) × (t : S) × (r ≡ (some m, t)))
alloc_cases (none, t) = inl (t, refl)
alloc_cases (some m, t) = inr (m, t, refl)

module _ (A : Pool) (cap : ℕ) (pool : IsPool A cap) where
  -- In some state the pool has no buffer.
  abbrev pub Refuses : Type 0
  Refuses = (u : A.State) × (t : A.State) × (A.try_alloc u ≡ (none, t))

  -- A buffer of one segment that holds the slice.
  abbrev pub Filled : Mbuf → List ℕ → Outcome Mbuf → Type 0
  Filled m part o =
      (full : Mbuf) × (o ≡ ok full)
      × IsMbuf full
      × (full.rest ≡ [])
      × (bytes full ≡ part)
      × (full.first.nb_segs ≡ 1)

  pub fresh-Filled :
      (m : Mbuf) (part : List ℕ)
      → IsFresh cap m
      → length part ≤ cap
      → Filled m part (extend_from_slice m part)
  unfolding seg_data
  fresh-Filled m part f h =
      let v : IsMbuf m = f.valid in
      let one : m.first.nb_segs ≡ 1 = omega (arith, v.count, ap length f.single) in
      let room : m.first.data_off + m.first.data_len + length part ≤ length m.first.buf =
        omega (arith, f.room, f.empty) in
      let (v', b) = appended-IsMbuf m v part one room in
      let nothing : bytes m ≡ [] =
        length-zero (bytes m)
          (omega (arith, length-bytes_of (m.first ∷ m.rest) v.segs, f.empty, ap total f.single)) in
      (
        appended m v part,
        extend_from_slice_ok m v part one room,
        v',
        f.single,
        b ∙ ap (λ z. z ++ part) nothing,
        one,
      )

  abbrev pub Grown : Mbuf → List ℕ → ℕ → Mbuf → Type 0
  Grown m part n m' =
      (m'.first ≡ m.first)
      × (All IsSeg m.rest → All IsSeg m'.rest)
      × (length m'.rest ≡ length m.rest + n)
      × (bytes m' ≡ bytes m ++ part)

  pub add_seg-Grown :
      (max_segs : ℕ) (m : Mbuf) (part : List ℕ) (s : A.State)
      → length part ≤ cap
      → ((t : A.State) × (add_seg A max_segs m part s ≡ ok (none, t)) × Refuses)
        ⊎ ((m' : Mbuf) × (t : A.State) × (add_seg A max_segs m part s ≡ ok (some m', t))
            × Grown m part 1 m')
  unfolding add_seg link
  add_seg-Grown max_segs m part s h = elim (alloc_cases (A.try_alloc s)) [
    | inl (t, e) ↦ inl (t, rw (add_seg, ap (λ p. p.0) e, ap (λ p. p.1) e) refl, (s, t, e))
    | inr (new, t, e) ↦
        let (full, done, v, single, b, one) =
          fresh-Filled new part (pool.alloc_fresh s t new e) h in
        inr (
          record { first = m.first; rest = m.rest ++ (full.first ∷ full.rest) },
          t,
          rw (add_seg, ap (λ p. p.0) e, ap (λ p. p.1) e, done) refl,
          (
            refl,
            λ a. All-append IsSeg m.rest (full.first ∷ full.rest) a v.segs,
            omega (arith, length-append m.rest (full.first ∷ full.rest), ap length single),
            ap (λ z. seg_data m.first ++ z) (bytes_of-append m.rest (full.first ∷ full.rest))
                ∙ sym (append_assoc (seg_data m.first) (bytes_of m.rest) (bytes full))
                ∙ ap (λ z. bytes m ++ z) b,
          ),
        )
  ]

  -- The loop has put the source but its last bytes into segments.
  abbrev pub Filling : Mbuf → List ℕ → ℕ → Outcome (Option (Mbuf × List ℕ) × A.State) → Type 0
  Filling m source rounds o =
      ((t : A.State) × (o ≡ ok (none, t)) × Refuses)
      ⊎ ((m' : Mbuf) × (last : List ℕ) × (t : A.State) × (o ≡ ok (some (m', last), t))
          × (m'.first ≡ m.first)
          × (All IsSeg m.rest → All IsSeg m'.rest)
          × (length m'.rest ≡ length m.rest + rounds)
          × (length last + rounds * cap ≡ length source)
          × (bytes m' ++ last ≡ bytes m ++ source))

  pub fill_segs-Filling :
      (max_segs rounds : ℕ) (m : Mbuf) (source : List ℕ) (s : A.State)
      → rounds * cap ≤ length source
      → Filling m source rounds (fill_segs A max_segs rounds cap m source s)
  unfolding fill_segs
  fill_segs-Filling max_segs zero m source s h =
      inr (m, source, s, refl, refl, λ a. a, omega arith, omega (arith, zero-mul cap), refl)
  fill_segs-Filling max_segs (suc rounds) m source s h =
      let part : List ℕ = take cap source in
      let rest : List ℕ = drop cap source in
      let one : cap ≤ length source = omega (arith, suc-mul rounds cap) in
      let fits : rounds * cap ≤ length rest =
        omega (arith, suc-mul rounds cap, length-drop cap source) in
      let chunk : length part ≤ cap = omega (arith, length-take cap source) in
      rw (slice_to_ok source cap one, slice_from_ok source cap one)
        (elim (add_seg-Grown max_segs m part s chunk) [
          | inl (t, e, out) ↦ inl (t, rw e, out)
          | inr (m1, t, e, (f, a, l, b)) ↦ elim (fill_segs-Filling max_segs rounds m1 rest t fits) [
            | inl (t', e', out) ↦ inl (t', rw (e, e'), out)
            | inr (m2, last, t', e', f', a', l', n', b') ↦ inr (
              m2,
              last,
              t',
              rw (e, e'),
              f' ∙ f,
              λ x. a' (a x),
              omega arith,
              omega (arith, suc-mul rounds cap, length-drop cap source),
              b'
                  ∙ ap (λ z. z ++ rest) b
                  ∙ append_assoc (bytes m) part rest
                  ∙ ap (λ z. bytes m ++ z) (take-append-drop cap source),
            )
          ]
        ])

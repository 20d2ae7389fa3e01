-- ===== src/Dpdk/Mbuf/Join.antt =====
-- The operations that make one packet of two, and the iteration over the segments.
use rpkt.Base.{ℕ, ◌+◌, ◌-◌, ◌≤◌, ◌<◌, ◌^◌, leb, ◌==◌, ◌&&◌, Bool-cases}
use rpkt.Base.{
  [], ◌∷◌, ◌++◌, Outcome, ok, panic, All-append, ◌≡◌, ◌≢◌, refl, arith, ap, ap₂, ◌∙◌, sym, inl, inr,
  ◌⊎◌,
}
use rpkt.Base.{length-append, length-zero, append-nil, append_assoc}
use rpkt.Dpdk.Mbuf.{Mbuf, seg_data, num_segs, chain, append_seg}
use rpkt.Dpdk.Mbuf.Valid.{
  IsSeg, total, IsMbuf, bytes_of, bytes, total-bound, total-append, bytes_of-append,
}

-- One packet of the segments of two.
abbrev Joins : Mbuf → Mbuf → Outcome Mbuf → Type 0
Joins m other o =
    (m' : Mbuf) × (o ≡ ok m')
    × IsMbuf m'
    × (bytes m' ≡ bytes m ++ bytes other)
    × (num_segs m' ≡ num_segs m + num_segs other)

sums :
    (m other : Mbuf)
    → IsMbuf m
    → IsMbuf other
    → m.first.nb_segs + other.first.nb_segs < 2 ^ 16
    → m.first.pkt_len + other.first.pkt_len < 2 ^ 32
sums m other v w h = omega (
  arith,
  v.packet,
  v.count,
  w.packet,
  w.count,
  total-bound (m.first ∷ m.rest) v.segs,
  total-bound (other.first ∷ other.rest) w.segs,
)

module _ (max_segs : ℕ) (few : max_segs < 2 ^ 16) (m other : Mbuf) (v : IsMbuf m)
    (w : IsMbuf other) where
  abbrev chained : Mbuf
  chained = record {
    first = record m.first {
      nb_segs = m.first.nb_segs + other.first.nb_segs;
      pkt_len = m.first.pkt_len + other.first.pkt_len;
    };
    rest = record other.first { pkt_len = other.first.data_len; nb_segs = 1 } ∷ other.rest;
  }

  chained-IsMbuf :
      m.first.nb_segs ≡ 1
      → other.first.nb_segs < max_segs
      → IsMbuf chained × (bytes chained ≡ bytes m ++ bytes other)
  unfolding seg_data
  chained-IsMbuf one fits =
      let none : m.rest ≡ [] = length-zero m.rest (omega (arith, v.count)) in
      (
        record {
          segs = (v.segs.0, w.segs);
          packet = omega (arith, v.packet, w.packet, ap total none);
          count = omega (arith, w.count);
          few = omega arith;
        },
        ap (λ z. z ++ bytes other)
            (sym (append-nil (seg_data m.first))
              ∙ ap (λ y. seg_data m.first ++ bytes_of y) (sym none)),
      )

  -- For well-formed buffers and `max_segs` below 2 ^ 16: `chain` of a buffer of one segment and another
  -- with fewer than `max_segs` segments returns a well-formed buffer with the bytes and the number of
  -- segments of both; otherwise it panics.
  pub chain-Joins :
      ((num_segs m ≡ 1) × (num_segs other < max_segs) × Joins m other (chain max_segs m other))
      ⊎ (((num_segs m ≢ 1) ⊎ (max_segs ≤ num_segs other)) × (chain max_segs m other ≡ panic))
  unfolding chain num_segs
  chain-Joins =
      elim (Bool-cases ((m.first.nb_segs == 1) && leb other.first.nb_segs (max_segs - 1))) [
        | inl good ↦
            let one : m.first.nb_segs ≡ 1 = ground arith in
            let fits : other.first.nb_segs < max_segs = ground (arith, w.count) in
            let sum : m.first.pkt_len + other.first.pkt_len < 2 ^ 32 =
              sums m other v w (omega arith) in
            let (valid, b) = chained-IsMbuf one fits in
            inl (
              one,
              fits,
              (
                chained,
                rw good (
                    ap₂
                      (λ a b.
                        ok (record chained { first = record m.first { nb_segs = a; pkt_len = b } }))
                      (omega arith) (omega arith)),
                valid,
                b,
                refl,
              ),
            )
        | inr bad ↦ inr (ground arith, rw bad)
      ]

  abbrev appended : Mbuf
  appended = record {
    first = record m.first {
      nb_segs = m.first.nb_segs + 1;
      pkt_len = m.first.pkt_len + other.first.pkt_len;
    };
    rest = m.rest ++ (other.first ∷ other.rest);
  }

  appended-IsMbuf :
      other.first.nb_segs ≡ 1
      → m.first.nb_segs < max_segs
      → IsMbuf appended × (bytes appended ≡ bytes m ++ bytes other)
  unfolding seg_data
  appended-IsMbuf one fits = (
    record {
      segs = (v.segs.0, All-append IsSeg m.rest (other.first ∷ other.rest) v.segs.1 w.segs);
      packet = omega (arith, v.packet, w.packet, total-append m.rest (other.first ∷ other.rest));
      count = omega (arith, v.count, w.count, length-append m.rest (other.first ∷ other.rest));
      few = omega arith;
    },
    ap (λ z. seg_data m.first ++ z) (bytes_of-append m.rest (other.first ∷ other.rest))
        ∙ sym (append_assoc (seg_data m.first) (bytes_of m.rest) (bytes other)),
  )

  -- For well-formed buffers and `max_segs` below 2 ^ 16: `append_seg` of a buffer of one segment to one
  -- with fewer than `max_segs` segments returns a well-formed buffer with the bytes and the number of
  -- segments of both; otherwise it panics.
  pub append_seg-Joins :
      ((num_segs other ≡ 1) × (num_segs m < max_segs) × Joins m other (append_seg max_segs m other))
      ⊎ (((num_segs other ≢ 1) ⊎ (max_segs ≤ num_segs m)) × (append_seg max_segs m other ≡ panic))
  unfolding append_seg num_segs
  append_seg-Joins = elim (Bool-cases (other.first.nb_segs == 1)) [
    | inl single ↦
        let one : other.first.nb_segs ≡ 1 = ground arith in
        elim (Bool-cases (leb m.first.nb_segs (max_segs - 1))) [
          | inl below ↦
              let fits : m.first.nb_segs < max_segs = ground (arith, v.count) in
              let sum : m.first.pkt_len + other.first.pkt_len < 2 ^ 32 =
                sums m other v w (omega arith) in
              let (valid, b) = appended-IsMbuf one fits in
              inl (
                one,
                fits,
                (
                  appended,
                  rw (single, below)
                      (ap₂
                        (λ a b.
                          ok (record appended {
                            first = record m.first { nb_segs = a; pkt_len = b };
                          }))
                        (omega arith) (omega arith)),
                  valid,
                  b,
                  omega arith,
                ),
              )
          | inr full ↦ inr (inr (ground arith), rw (single, full))
        ]
    | inr several ↦ inr (inl (ground arith), rw several)
  ]

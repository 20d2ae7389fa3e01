-- ===== src/Dpdk/Mbuf/Edit.antt =====
-- The operations on the first segment: what they do to the bytes of the packet.
use rpkt.Base.{
  ℕ, ◌+◌, ◌-◌, ◌*◌, ◌≤◌, ◌<◌, ◌^◌, leb, ◌==◌, Bool-cases, le→leb, leb→le, leb-false, eq→==, ==→eq,
}
use rpkt.Base.{
  List, [], ◌∷◌, ◌++◌, ok, panic, length, take, drop, ◌≡◌, ◌≢◌, refl, arith, ap, ap₂, ◌∙◌, sym, inl,
  inr, ◌⊎◌,
}
use rpkt.Base.{
  take_prefix, drop_prefix, take-take, length-append, length-take, length-drop, length-zero,
  append-nil,
}
use rpkt.Wire.{splice}
use rpkt.Wire.Laws.{set_range_ok, length-splice}
use rpkt.Packet.Laws.{ok_then}
use rpkt.Dpdk.Mbuf.{RteMbuf, Mbuf, seg_data, len, num_segs, capacity, data_bytes, put_data}
use rpkt.Dpdk.Mbuf.{extend, extend_from_slice}
use rpkt.Dpdk.Mbuf.Valid.{IsSeg, total, IsMbuf, bytes_of, bytes, length-seg_data, total-bound}

-- The bytes written over the data are the data.
pub written :
    (buf : List ℕ) (off n : ℕ) (new : List ℕ)
    → off + n ≤ length buf
    → length new ≡ n
    → take n (drop off (splice buf off new)) ≡ new
unfolding splice
written buf off n new h e =
    ap (take n) (
      drop_prefix off (take off buf) (new ++ drop (off + length new) buf)
        (omega (arith, length-take off buf)))
    ∙ take_prefix n new (drop (off + length new) buf) e

splice_end :
    (xs new : List ℕ) (n : ℕ) → length xs ≡ n + length new → splice xs n new ≡ take n xs ++ new
unfolding splice
splice_end xs new n e =
    ap (λ z. take n xs ++ (new ++ z))
      (length-zero (drop (n + length new) xs) (omega (arith, length-drop (n + length new) xs)))
    ∙ ap (λ z. take n xs ++ z) (append-nil new)

-- A buffer with another first segment.
abbrev pub with_first : Mbuf → RteMbuf → Mbuf
with_first m seg = record m { first = seg }

pub with_first-IsMbuf :
    (m : Mbuf) (seg : RteMbuf)
    → IsMbuf m
    → IsSeg seg
    → seg.nb_segs ≡ m.first.nb_segs
    → (seg.data_len + total m.rest < 2 ^ 32 → seg.pkt_len ≡ seg.data_len + total m.rest)
    → IsMbuf (with_first m seg)
with_first-IsMbuf m seg v s same sum =
    let bound : seg.data_len + total m.rest ≤ length (seg ∷ m.rest) * 65535 =
      total-bound (seg ∷ m.rest) (s, v.segs.1) in
    record {
      segs = (s, v.segs.1);
      packet = sum (omega (arith, v.count, v.few));
      count = omega (arith, v.count);
      few = omega (arith, v.few);
    }

module _ (m : Mbuf) (v : IsMbuf m) where
  -- The segment after an extension by the slice, with the slice written.
  abbrev pub appended : List ℕ → Mbuf
  appended slice = with_first m (record m.first {
    buf = splice m.first.buf m.first.data_off (seg_data m.first ++ slice);
    data_len = m.first.data_len + length slice;
    pkt_len = m.first.pkt_len + length slice;
  })

  pub appended-IsMbuf :
      (slice : List ℕ)
      → m.first.nb_segs ≡ 1
      → m.first.data_off + m.first.data_len + length slice ≤ length m.first.buf
      → IsMbuf (appended slice) × (bytes (appended slice) ≡ bytes m ++ slice)
  unfolding seg_data
  appended-IsMbuf slice one room =
      let s : IsSeg m.first = v.segs.0 in
      let none : m.rest ≡ [] = length-zero m.rest (omega (arith, v.count)) in
      let zero_rest : total m.rest ≡ 0 = ap total none in
      let new : List ℕ = seg_data m.first ++ slice in
      let size : length new ≡ m.first.data_len + length slice =
        omega (arith, length-append (seg_data m.first) slice, length-seg_data m.first s) in
      let same : length (splice m.first.buf m.first.data_off new) ≡ length m.first.buf =
        length-splice m.first.buf m.first.data_off new (omega arith) in
      (
        with_first-IsMbuf m _ v (omega arith) refl (λ h. omega (arith, v.packet)),
        ap₂ (λ x y. x ++ bytes_of y) (written m.first.buf m.first.data_off _ new (omega arith) size)
              none
            ∙ append-nil new
            ∙ ap (λ z. z ++ slice)
                (sym (append-nil (seg_data m.first))
                  ∙ ap (λ y. seg_data m.first ++ bytes_of y) (sym none)),
      )

  -- The length of the packet stays a u32.
  pub length-IsU32 : m.first.pkt_len + 65535 < 2 ^ 32
  length-IsU32 = omega (arith, v.packet, v.count, v.few, total-bound (m.first ∷ m.rest) v.segs)

  pub capacity_ok :
      m.first.nb_segs ≡ 1
      → capacity m ≡ ok (length m.first.buf - (m.first.data_off + m.first.data_len))
  unfolding capacity num_segs
  capacity_ok one = rw (eq→== m.first.nb_segs 1 one) (ap ok (omega (arith, v.segs.0)))

  abbrev longer : ℕ → Mbuf
  longer cnt =
      with_first m
        (record m.first { data_len = m.first.data_len + cnt; pkt_len = m.first.pkt_len + cnt })

  extend_ok :
      (cnt : ℕ)
      → m.first.nb_segs ≡ 1
      → m.first.data_off + m.first.data_len + cnt ≤ length m.first.buf
      → extend m cnt ≡ ok (longer cnt)
  unfolding extend num_segs
  extend_ok cnt one room =
      rw
        (
          eq→== m.first.nb_segs 1 one,
          capacity_ok one,
          le→leb cnt (length m.first.buf - (m.first.data_off + m.first.data_len)) (omega arith),
        )
        (ap₂ (λ a b. ok (with_first m (record m.first { data_len = a; pkt_len = b })))
          (omega (arith, v.segs.0)) (omega (arith, v.segs.0, length-IsU32)))

  pub extend_from_slice_ok :
      (slice : List ℕ)
      → m.first.nb_segs ≡ 1
      → m.first.data_off + m.first.data_len + length slice ≤ length m.first.buf
      → extend_from_slice m slice ≡ ok (appended slice)
  unfolding extend_from_slice data_bytes put_data len seg_data
  extend_from_slice_ok slice one room =
      let s : IsSeg m.first = v.segs.0 in
      let old : ℕ = m.first.data_len in
      let behind : List ℕ = drop m.first.data_off m.first.buf in
      let total_len : m.first.pkt_len ≡ old =
        omega (arith, v.packet, ap total (length-zero m.rest (omega (arith, v.count)))) in
      let more : List ℕ = take (old + length slice) behind in
      let size : length more ≡ old + length slice = omega (
        arith,
        length-take (old + length slice) behind,
        length-drop m.first.data_off m.first.buf,
      ) in
      let new : splice more m.first.pkt_len slice ≡ take old behind ++ slice =
        ap (λ n. splice more n slice) total_len
        ∙ splice_end more slice old size
        ∙ ap (λ z. z ++ slice) (take-take old (old + length slice) behind (omega arith)) in
      ok_then _ (longer (length slice)) (extend_ok (length slice) one room) (
        ok_then _ (splice more m.first.pkt_len slice)
          (set_range_ok more m.first.pkt_len (length more) slice (omega (arith, size))
            (omega arith))
          (ap
            (λ z. ok (
              with_first m (record m.first {
                buf = splice m.first.buf m.first.data_off z;
                data_len = old + length slice;
                pkt_len = m.first.pkt_len + length slice;
              })))
            new))

  -- `extend_from_slice` on a well-formed buffer panics unless the buffer is one segment and has room
  -- for the slice; it then returns a well-formed buffer that holds the bytes and the slice behind them.
  pub extend_from_slice-append :
      (slice : List ℕ)
      → ((m' : Mbuf) × (extend_from_slice m slice ≡ ok m')
          × (num_segs m ≡ 1)
          × (m.first.data_off + m.first.data_len + length slice ≤ length m.first.buf)
          × IsMbuf m'
          × (bytes m' ≡ bytes m ++ slice))
        ⊎ (((num_segs m ≢ 1)
              ⊎ (length m.first.buf < m.first.data_off + m.first.data_len + length slice))
            × (extend_from_slice m slice ≡ panic))
  unfolding extend_from_slice extend num_segs
  extend_from_slice-append slice = elim (Bool-cases (m.first.nb_segs == 1)) [
    | inl one ↦
        let e : m.first.nb_segs ≡ 1 = ==→eq m.first.nb_segs 1 one in
        let cap : ℕ = length m.first.buf - (m.first.data_off + m.first.data_len) in
        elim (Bool-cases (leb (length slice) cap)) [
          | inl fits ↦
              let room : m.first.data_off + m.first.data_len + length slice ≤ length m.first.buf =
                omega (arith, leb→le (length slice) cap fits, v.segs.0) in
              let (v', b) = appended-IsMbuf slice e room in
              inl (appended slice, extend_from_slice_ok slice e room, e, room, v', b)
          | inr full ↦ inr (
            inr (omega (arith, leb-false (length slice) cap full, v.segs.0)),
            rw (one, capacity_ok e, full),
          )
        ]
    | inr several ↦ inr (inl (ground arith), rw several)
  ]

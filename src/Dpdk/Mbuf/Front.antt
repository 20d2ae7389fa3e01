-- ===== src/Dpdk/Mbuf/Front.antt =====
-- The operations at the front of the first segment: what they do to the bytes of the packet.
use rpkt.Base.{ℕ, ◌+◌, ◌-◌, ◌≤◌, ◌<◌, ◌%◌, ◌^◌, leb, Bool-cases, le→leb, leb→le, leb-false}
use rpkt.Base.{
  List, ◌++◌, ok, panic, length, take, drop, ◌≡◌, refl, arith, ap, ◌∙◌, sym, inl, inr, ◌⊎◌,
}
use rpkt.Base.{
  drop-append_le, drop-take, drop-drop, length-append, length-take, length-drop, append_assoc,
}
use rpkt.Wire.{splice}
use rpkt.Wire.Laws.{set_range_ok, length-splice}
use rpkt.Packet.Laws.{ok_then}
use rpkt.Dpdk.Mbuf.{Mbuf, seg_data, front_capacity, data_bytes, put_data}
use rpkt.Dpdk.Mbuf.{extend_front, extend_front_from_slice, trim_front}
use rpkt.Dpdk.Mbuf.Valid.{IsSeg, IsMbuf, bytes_of, bytes, length-seg_data}
use rpkt.Dpdk.Mbuf.Edit.{written, with_first, with_first-IsMbuf, length-IsU32}

splice_front : (xs new : List ℕ) → splice xs 0 new ≡ new ++ drop (length new) xs
unfolding splice
splice_front xs new = ap (λ n. new ++ drop n xs) (omega arith)

module _ (m : Mbuf) (v : IsMbuf m) where
  abbrev longer : ℕ → Mbuf
  longer cnt = with_first m (record m.first {
    data_len = m.first.data_len + cnt;
    pkt_len = m.first.pkt_len + cnt;
    data_off = m.first.data_off - cnt;
  })

  abbrev prepended : List ℕ → Mbuf
  prepended slice = with_first m (record m.first {
    buf = splice m.first.buf (m.first.data_off - length slice) (slice ++ seg_data m.first);
    data_len = m.first.data_len + length slice;
    pkt_len = m.first.pkt_len + length slice;
    data_off = m.first.data_off - length slice;
  })

  extend_front_ok : (cnt : ℕ) → cnt ≤ m.first.data_off → extend_front m cnt ≡ ok (longer cnt)
  unfolding extend_front front_capacity
  extend_front_ok cnt room = rw (le→leb cnt m.first.data_off room) (λ i. ok (
      with_first m
        (record m.first { data_len = grown i; pkt_len = counted i; data_off = moved i })))
    where
      grown : (m.first.data_len + cnt % 2 ^ 16) % 2 ^ 16 ≡ m.first.data_len + cnt
      grown = omega (arith, v.segs.0)

      counted : (m.first.pkt_len + cnt % 2 ^ 32) % 2 ^ 32 ≡ m.first.pkt_len + cnt
      counted = omega (arith, v.segs.0, length-IsU32 m v)

      moved : (m.first.data_off + 2 ^ 16 - cnt % 2 ^ 16) % 2 ^ 16 ≡ m.first.data_off - cnt
      moved = omega (arith, v.segs.0)

  extend_front_from_slice_ok :
      (slice : List ℕ)
      → length slice ≤ m.first.data_off
      → extend_front_from_slice m slice ≡ ok (prepended slice)
  unfolding extend_front_from_slice data_bytes put_data seg_data
  extend_front_from_slice_ok slice room =
      let s : IsSeg m.first = v.segs.0 in
      let cnt : ℕ = length slice in
      let off : ℕ = m.first.data_off - cnt in
      let old : ℕ = m.first.data_len in
      let more : List ℕ = take (old + cnt) (drop off m.first.buf) in
      let size : length more ≡ old + cnt =
        omega
          (arith, length-take (old + cnt) (drop off m.first.buf), length-drop off m.first.buf) in
      let turn : old + cnt ≡ cnt + old = omega arith in
      let back : off + cnt ≡ m.first.data_off = omega arith in
      let kept : drop cnt more ≡ take old (drop m.first.data_off m.first.buf) =
        ap (λ n. drop cnt (take n (drop off m.first.buf))) turn
        ∙ drop-take cnt old (drop off m.first.buf)
        ∙ ap (take old) (drop-drop off cnt m.first.buf ∙ ap (λ n. drop n m.first.buf) back) in
      ok_then _ (longer cnt) (extend_front_ok cnt room) (
        ok_then _ (splice more 0 slice)
          (set_range_ok more 0 cnt slice (omega arith) (omega (arith, size)))
          (ap
            (λ z. ok (
              with_first m (record m.first {
                buf = splice m.first.buf off z;
                data_len = old + cnt;
                pkt_len = m.first.pkt_len + cnt;
                data_off = off;
              })))
            (splice_front more slice ∙ ap (λ z. slice ++ z) kept)))

  prepended-IsMbuf :
      (slice : List ℕ)
      → length slice ≤ m.first.data_off
      → IsMbuf (prepended slice) × (bytes (prepended slice) ≡ slice ++ bytes m)
  unfolding seg_data
  prepended-IsMbuf slice room =
      let s : IsSeg m.first = v.segs.0 in
      let off : ℕ = m.first.data_off - length slice in
      let new : List ℕ = slice ++ seg_data m.first in
      let size : length new ≡ m.first.data_len + length slice =
        omega (arith, length-append slice (seg_data m.first), length-seg_data m.first s) in
      let same : length (splice m.first.buf off new) ≡ length m.first.buf =
        length-splice m.first.buf off new (omega arith) in
      (
        with_first-IsMbuf m _ v (omega arith) refl (λ h. omega (arith, v.packet)),
        ap (λ x. x ++ bytes_of m.rest) (written m.first.buf off _ new (omega arith) size)
            ∙ append_assoc slice (seg_data m.first) (bytes_of m.rest),
      )

  -- `extend_front_from_slice` on a well-formed buffer panics unless the headroom has room for the
  -- slice; it then returns a well-formed buffer that holds the slice and the bytes behind it.
  pub extend_front_from_slice-append :
      (slice : List ℕ)
      → ((m' : Mbuf) × (extend_front_from_slice m slice ≡ ok m')
          × (length slice ≤ front_capacity m)
          × IsMbuf m'
          × (bytes m' ≡ slice ++ bytes m))
        ⊎ ((front_capacity m < length slice) × (extend_front_from_slice m slice ≡ panic))
  unfolding extend_front_from_slice extend_front front_capacity
  extend_front_from_slice-append slice = elim (Bool-cases (leb (length slice) m.first.data_off)) [
    | inl fits ↦
        let room : length slice ≤ m.first.data_off = leb→le (length slice) m.first.data_off fits in
        let (v', b) = prepended-IsMbuf slice room in
        inl (prepended slice, extend_front_from_slice_ok slice room, room, v', b)
    | inr full ↦ inr (leb-false (length slice) m.first.data_off full, rw full)
  ]

  abbrev trimmed : ℕ → Mbuf
  trimmed cnt = with_first m (record m.first {
    data_len = m.first.data_len - cnt;
    pkt_len = m.first.pkt_len - cnt;
    data_off = m.first.data_off + cnt;
  })

  trim_front_ok : (cnt : ℕ) → cnt ≤ m.first.data_len → trim_front m cnt ≡ ok (trimmed cnt)
  unfolding trim_front
  trim_front_ok cnt room = rw (le→leb cnt m.first.data_len room) (λ i. ok (
      with_first m (record m.first { data_len = less i; pkt_len = counted i; data_off = moved i })))
    where
      less : (m.first.data_len + 2 ^ 16 - cnt % 2 ^ 16) % 2 ^ 16 ≡ m.first.data_len - cnt
      less = omega (arith, v.segs.0)

      counted : (m.first.pkt_len + 2 ^ 32 - cnt % 2 ^ 32) % 2 ^ 32 ≡ m.first.pkt_len - cnt
      counted = omega (arith, v.segs.0, v.packet, length-IsU32 m v)

      moved : (m.first.data_off + cnt % 2 ^ 16) % 2 ^ 16 ≡ m.first.data_off + cnt
      moved = omega (arith, v.segs.0)

  trimmed-IsMbuf :
      (cnt : ℕ)
      → cnt ≤ m.first.data_len
      → IsMbuf (trimmed cnt) × (bytes (trimmed cnt) ≡ drop cnt (bytes m))
  trimmed-IsMbuf cnt room =
      let s : IsSeg m.first = v.segs.0 in
      let whole : cnt + (m.first.data_len - cnt) ≡ m.first.data_len = omega arith in
      let cut : seg_data (record m.first {
        data_len = m.first.data_len - cnt;
        pkt_len = m.first.pkt_len - cnt;
        data_off = m.first.data_off + cnt;
      })
          ≡ drop cnt (seg_data m.first) =
        unfold seg_data in
        ap (take (m.first.data_len - cnt)) (sym (drop-drop m.first.data_off cnt m.first.buf))
        ∙ sym (drop-take cnt (m.first.data_len - cnt) (drop m.first.data_off m.first.buf))
        ∙ ap (λ n. drop cnt (take n (drop m.first.data_off m.first.buf))) whole in
      (
        with_first-IsMbuf m _ v (omega arith) refl (λ h. omega (arith, v.packet)),
        ap (λ x. x ++ bytes_of m.rest) cut
            ∙ sym (
                drop-append_le cnt (seg_data m.first) (bytes_of m.rest)
                  (omega (arith, length-seg_data m.first s))),
      )

  -- `trim_front` on a well-formed buffer panics unless the first segment has as many bytes; it then
  -- returns a well-formed buffer that holds the bytes behind the first `cnt`.
  pub trim_front-drop :
      (cnt : ℕ)
      → ((m' : Mbuf) × (trim_front m cnt ≡ ok m')
          × (cnt ≤ m.first.data_len)
          × IsMbuf m'
          × (bytes m' ≡ drop cnt (bytes m)))
        ⊎ ((m.first.data_len < cnt) × (trim_front m cnt ≡ panic))
  unfolding trim_front
  trim_front-drop cnt = elim (Bool-cases (leb cnt m.first.data_len)) [
    | inl fits ↦
        let room : cnt ≤ m.first.data_len = leb→le cnt m.first.data_len fits in
        let (v', b) = trimmed-IsMbuf cnt room in
        inl (trimmed cnt, trim_front_ok cnt room, room, v', b)
    | inr beyond ↦ inr (leb-false cnt m.first.data_len beyond, rw beyond)
  ]

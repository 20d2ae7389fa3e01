-- ===== src/Examples/Pbufs.antt =====
-- A cursor over a packet of two segments.
use rpkt.Base.{◌≤◌, ◌<◌, take, refl, List, [], ◌∷◌, ok, panic, ◌≡◌, ◌⊎◌, inl, arith}
use rpkt.Dpdk.Mbuf.Valid.{bytes}
use rpkt.Dpdk.Pbuf.{Pbuf, new, cursor, remaining, trim_off}
use rpkt.Dpdk.Pbuf.Sound.{IsPbuf}
use rpkt.Dpdk.Pbuf.Trim.{Trimmed, trim_off-take}
use rpkt.Dpdk.Pbuf.Refine.{
  Move, View, Shows, forward, back, trim, shift_all, perform_all, perform_all-shift_all,
}
use rpkt.Examples.Mbufs.{seg_b, two_segs, two_segs-IsMbuf}

-- Into the second segment and back, then a cut, and one step too far.
abbrev there_and_back : List Move
there_and_back = forward 4 ∷ back 3 ∷ trim 1 ∷ forward 3 ∷ []

perform_all-shift_all_example :
    ((shift_all there_and_back (record { bytes = bytes two_segs; pos = 0 }) ≡ panic)
      × (perform_all there_and_back (new two_segs) ≡ panic))
    ⊎ ((p : Pbuf) × (v : View) × (perform_all there_and_back (new two_segs) ≡ ok p)
        × (shift_all there_and_back (record { bytes = bytes two_segs; pos = 0 }) ≡ ok v)
        × Shows p v)
perform_all-shift_all_example =
    perform_all-shift_all two_segs there_and_back two_segs-IsMbuf (inl (omega arith))

-- At the last byte of the second segment.
abbrev at_last : Pbuf
at_last = record {
  mbuf_head = two_segs;
  mbuf_cur = 1;
  chunk_start = 2;
  chunk_len = 1;
  segs_len = 5;
}

at_last-IsPbuf : IsPbuf at_last
at_last-IsPbuf = record {
  valid = two_segs-IsMbuf;
  pre = two_segs.first ∷ [];
  seg = seg_b;
  post = [];
  parts = refl;
  place = refl;
  reach = refl;
  inside = omega arith;
  start = refl;
  live = inl (omega arith);
}

trim_off-take_example :
    ((1 ≤ remaining at_last)
      × ((p' : Pbuf) × (trim_off at_last 1 ≡ ok p')
          × Trimmed (take 4 (bytes two_segs)) (cursor at_last) p'))
    ⊎ ((remaining at_last < 1) × (trim_off at_last 1 ≡ panic))
trim_off-take_example = trim_off-take at_last 1 at_last-IsPbuf

-- ===== src/Examples/Mbufs.antt =====
-- A packet of two segments, another of one segment, and a pool that hands out buffers of three bytes.
use rpkt.Base.{
  ℕ, zero, suc, ◌+◌, ◌≤◌, ◌<◌, List, [], ◌∷◌, ◌++◌, replicate, length, Option, none, some, ok,
  panic, take, ◌≡◌, ◌≢◌, refl, arith, ◌⊎◌, ap, subst,
}
use rpkt.Dpdk.Mbuf.{RteMbuf, Mbuf, seg_data, seg_slices, len, num_segs, seg_iter, truncate, chain}
use rpkt.Dpdk.Mbuf.Valid.{IsMbuf, bytes}
use rpkt.Dpdk.Mbuf.Truncate.{truncate-take}
use rpkt.Dpdk.Mbuf.Join.{chain-Joins}
use rpkt.Dpdk.Mbuf.Build.{Pool, IsFresh, IsPool, from_slice}
use rpkt.Dpdk.Mbuf.Build.FromSlice.{Holds, from_slice-Holds}
use rpkt.Dpdk.Mbuf.Calls.{
  Call, append_slice, prepend_slice, trim, cut, chain_other, append_other, perform_all,
  perform_all-Keeps, effects,
}

abbrev seg_a : RteMbuf
seg_a = record {
  buf = 0 ∷ 1 ∷ 2 ∷ 3 ∷ 4 ∷ 5 ∷ 6 ∷ 7 ∷ [];
  data_off = 2;
  data_len = 3;
  pkt_len = 3;
  nb_segs = 1;
}

abbrev pub seg_b : RteMbuf
seg_b = record {
  buf = 20 ∷ 21 ∷ 22 ∷ 23 ∷ [];
  data_off = 1;
  data_len = 2;
  pkt_len = 2;
  nb_segs = 1;
}

abbrev one_seg : Mbuf
one_seg = record { first = seg_a; rest = [] }

abbrev other_seg : Mbuf
other_seg = record { first = seg_b; rest = [] }

abbrev pub two_segs : Mbuf
two_segs = record { first = record seg_a { pkt_len = 5; nb_segs = 2 }; rest = seg_b ∷ [] }

one_seg-IsMbuf : IsMbuf one_seg
one_seg-IsMbuf = record {
  segs = ((omega arith, omega arith), tt);
  packet = refl;
  count = refl;
  few = omega arith;
}

other_seg-IsMbuf : IsMbuf other_seg
other_seg-IsMbuf = record {
  segs = ((omega arith, omega arith), tt);
  packet = refl;
  count = refl;
  few = omega arith;
}

pub two_segs-IsMbuf : IsMbuf two_segs
two_segs-IsMbuf = record {
  segs = ((omega arith, omega arith), ((omega arith, omega arith), tt));
  packet = refl;
  count = refl;
  few = omega arith;
}

iter_gives_data : seg_iter two_segs ≡ (2 ∷ 3 ∷ 4 ∷ []) ∷ (21 ∷ 22 ∷ []) ∷ []
unfolding seg_iter seg_slices seg_data
iter_gives_data = refl

truncate-take_example :
    ((4 ≤ len two_segs)
      × ((m' : Mbuf) × (truncate two_segs 4 ≡ ok m')
          × IsMbuf m'
          × (bytes m' ≡ take 4 (bytes two_segs))
          × (length m'.rest ≤ length two_segs.rest)))
    ⊎ ((len two_segs < 4) × (truncate two_segs 4 ≡ panic))
truncate-take_example = truncate-take two_segs 4 two_segs-IsMbuf

chain-Joins_example :
    ((num_segs one_seg ≡ 1)
      × (num_segs two_segs < 5)
      × ((m' : Mbuf) × (chain 5 one_seg two_segs ≡ ok m')
          × IsMbuf m'
          × (bytes m' ≡ bytes one_seg ++ bytes two_segs)
          × (num_segs m' ≡ num_segs one_seg + num_segs two_segs)))
    ⊎ (((num_segs one_seg ≢ 1) ⊎ (5 ≤ num_segs two_segs)) × (chain 5 one_seg two_segs ≡ panic))
chain-Joins_example = chain-Joins 5 (omega arith) one_seg two_segs one_seg-IsMbuf two_segs-IsMbuf

abbrev some_calls : List Call
some_calls =
    prepend_slice (9 ∷ [])
    ∷ append_slice (8 ∷ [])
    ∷ chain_other two_segs
    ∷ append_other other_seg
    ∷ trim 2
    ∷ cut 6
    ∷ []

perform_all-Keeps_example :
    ((m' : Mbuf) × (perform_all 5 some_calls one_seg ≡ ok m')
      × IsMbuf m'
      × (bytes m' ≡ effects some_calls (bytes one_seg)))
    ⊎ (perform_all 5 some_calls one_seg ≡ panic)
perform_all-Keeps_example =
    perform_all-Keeps 5 (omega arith) some_calls one_seg one_seg-IsMbuf
      (tt, (tt, (two_segs-IsMbuf, (other_seg-IsMbuf, (tt, (tt, tt))))))

abbrev fresh_buffer : Mbuf
fresh_buffer = record {
  first = record { buf = replicate 5 0; data_off = 2; data_len = 0; pkt_len = 0; nb_segs = 1 };
  rest = [];
}

fresh_buffer-IsFresh : IsFresh 3 fresh_buffer
fresh_buffer-IsFresh = record {
  valid = record {
    segs = ((omega arith, omega arith), tt);
    packet = refl;
    count = refl;
    few = omega arith;
  };
  single = refl;
  empty = refl;
  room = refl;
}

-- The state is the number of buffers that are left.
abbrev take_buffer : ℕ → Option Mbuf × ℕ
take_buffer zero = (none, zero)
take_buffer (suc left) = (some fresh_buffer, left)

abbrev small_pool : Pool
small_pool = record { State = ℕ; try_alloc = take_buffer }

abbrev given : Option Mbuf × ℕ → Mbuf
given (none, left) = fresh_buffer
given (some m, left) = m

take_buffer-IsFresh : (s t : ℕ) (m : Mbuf) → take_buffer s ≡ (some m, t) → IsFresh 3 m
take_buffer-IsFresh zero t m e = cc
take_buffer-IsFresh (suc left) t m e = subst (IsFresh 3) (ap given e) fresh_buffer-IsFresh

small_pool-IsPool : IsPool small_pool 3
small_pool-IsPool = record { alloc_fresh = take_buffer-IsFresh }

from_slice-Holds_example :
    Holds small_pool 3 small_pool-IsPool 5
      (1 ∷ 2 ∷ 3 ∷ 4 ∷ 5 ∷ 6 ∷ 7 ∷ [])
      (from_slice small_pool 5 (1 ∷ 2 ∷ 3 ∷ 4 ∷ 5 ∷ 6 ∷ 7 ∷ []) 4)
from_slice-Holds_example =
    from_slice-Holds small_pool 3 small_pool-IsPool 5 (omega arith) (omega arith)
      (1 ∷ 2 ∷ 3 ∷ 4 ∷ 5 ∷ 6 ∷ 7 ∷ []) 4

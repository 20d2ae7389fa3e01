-- ===== src/Dpdk/Mbuf.antt =====
-- rpkt-dpdk/src/multiseg.rs: `Mbuf`, the packet buffer of DPDK, which may consist of several segments.
-- The segments that `next` links are the list behind the first, and a pointer to a segment is its
-- place in that list. Each segment has the fields of its `rte_mbuf`; `pkt_len` and `nb_segs` count in
-- the first one only. What `rte_pktmbuf_free_` releases is no longer part of the model.
pub mod Valid
pub mod Truncate
pub mod Parts
pub mod Edit
pub mod Front
pub mod Join
pub mod Build
pub mod Calls
use rpkt.Base.{
  ℕ, zero, suc, ◌+◌, ◌-◌, ◌*◌, ◌/◌, ◌%◌, ◌^◌, leb, ltb, ◌==◌, ◌&&◌, not, if◌then◌else◌, Bool, true,
  false,
}
use rpkt.Base.{List, [], ◌∷◌, ◌++◌, Outcome, ok, panic, ◌>>=◌, ◌>>◌, assert, length, take, drop}
use rpkt.Wire.{splice, set_range}

-- `n as u16`, and the arithmetic of u16 and u32 in a release build.
abbrev pub as_u16 : ℕ → ℕ
as_u16 n = n % 2 ^ 16

abbrev pub add_u16 : ℕ → ℕ → ℕ
add_u16 a b = (a + b) % 2 ^ 16

abbrev pub sub_u16 : ℕ → ℕ → ℕ
sub_u16 a b = (a + 2 ^ 16 - b) % 2 ^ 16

abbrev pub add_u32 : ℕ → ℕ → ℕ
add_u32 a b = (a + b) % 2 ^ 32

abbrev pub sub_u32 : ℕ → ℕ → ℕ
sub_u32 a b = (a + 2 ^ 32 - b) % 2 ^ 32

-- `buf` are the bytes at `buf_addr`, and `buf_len` their number.
pub record RteMbuf : Type 0 where
  pub buf : List ℕ
  pub data_off : ℕ
  pub data_len : ℕ
  pub pkt_len : ℕ
  pub nb_segs : ℕ

pub record Mbuf : Type 0 where
  pub first : RteMbuf
  pub rest : List RteMbuf

-- `from_raw_parts(data_addr(seg), seg.data_len)`
unfoldable pub seg_data : RteMbuf → List ℕ
seg_data seg = take seg.data_len (drop seg.data_off seg.buf)

unfoldable pub len : Mbuf → ℕ
len m = m.first.pkt_len

pub num_segs : Mbuf → ℕ
num_segs m = m.first.nb_segs

pub capacity : Mbuf → Outcome ℕ
unfolding num_segs
capacity m = do
  assert (num_segs m == 1)
  ok (sub_u16 (sub_u16 (length m.first.buf) m.first.data_off) m.first.data_len)

pub front_capacity : Mbuf → ℕ
front_capacity m = m.first.data_off

pub data_bytes : Mbuf → List ℕ
data_bytes m = seg_data m.first

-- The buffer after `data_mut()` was overwritten by `bytes`.
pub put_data : Mbuf → List ℕ → Mbuf
put_data m bytes = record m {
  first = record m.first { buf = splice m.first.buf m.first.data_off bytes };
}

pub extend : Mbuf → ℕ → Outcome Mbuf
extend m cnt = do
  assert (num_segs m == 1)
  cap ← capacity m
  assert (leb cnt cap)
  ok (record m {
    first = record m.first {
      data_len = add_u16 m.first.data_len (as_u16 cnt);
      pkt_len = add_u32 m.first.pkt_len (cnt % 2 ^ 32);
    };
  })

pub extend_from_slice : Mbuf → List ℕ → Outcome Mbuf
extend_from_slice m slice = do
  longer ← extend m (length slice)
  bytes ← set_range (data_bytes longer) (len m) (length (data_bytes longer)) slice
  ok (put_data longer bytes)

pub extend_front : Mbuf → ℕ → Outcome Mbuf
extend_front m cnt = do
  assert (leb cnt (front_capacity m))
  ok (record m {
    first = record m.first {
      data_len = add_u16 m.first.data_len (as_u16 cnt);
      pkt_len = add_u32 m.first.pkt_len (cnt % 2 ^ 32);
      data_off = sub_u16 m.first.data_off (as_u16 cnt);
    };
  })

pub extend_front_from_slice : Mbuf → List ℕ → Outcome Mbuf
extend_front_from_slice m slice = do
  longer ← extend_front m (length slice)
  bytes ← set_range (data_bytes longer) 0 (length slice) slice
  ok (put_data longer bytes)

pub trim_front : Mbuf → ℕ → Outcome Mbuf
trim_front m cnt = do
  assert (leb cnt m.first.data_len)
  ok (record m {
    first = record m.first {
      data_len = sub_u16 m.first.data_len (as_u16 cnt);
      pkt_len = sub_u32 m.first.pkt_len (cnt % 2 ^ 32);
      data_off = add_u16 m.first.data_off (as_u16 cnt);
    };
  })

-- What `truncate` leaves of the segments from one on: that segment, those behind it, how many they
-- are, and whether trailing segments were freed. Following `next` at the last segment would
-- dereference null: `panic`.
pub record Kept : Type 0 where
  pub seg : RteMbuf
  pub behind : List RteMbuf
  pub nb_segs : ℕ
  pub freed : Bool

pub cut_segs : ℕ → RteMbuf → List RteMbuf → Outcome Kept
cut_segs remaining seg [] =
    if ltb seg.data_len remaining
    then panic
    else ok (record {
      seg = record seg { data_len = as_u16 remaining };
      behind = [];
      nb_segs = 1;
      freed = false;
    })
cut_segs remaining seg (next ∷ more) =
    let tail = cut_segs (remaining - seg.data_len) next more in
    if ltb seg.data_len remaining
    then (tail >>= λ k. ok (record {
      seg = seg;
      behind = k.seg ∷ k.behind;
      nb_segs = add_u16 1 k.nb_segs;
      freed = k.freed;
    }))
    else ok (record {
      seg = record seg { data_len = as_u16 remaining };
      behind = [];
      nb_segs = 1;
      freed = true;
    })

pub truncate : Mbuf → ℕ → Outcome Mbuf
truncate m cnt = do
  assert (leb cnt (len m))
  k ← cut_segs cnt m.first m.rest
  ok (record {
    first = record k.seg {
      pkt_len = cnt % 2 ^ 32;
      nb_segs = if k.freed then k.nb_segs else m.first.nb_segs;
    };
    rest = k.behind;
  })

-- `max_segs` is `RTE_MBUF_MAX_NB_SEGS`.
pub chain : ℕ → Mbuf → Mbuf → Outcome Mbuf
chain max_segs m other = do
  assert ((num_segs m == 1) && leb (num_segs other) (max_segs - 1))
  ok (record {
    first = record m.first {
      nb_segs = add_u16 m.first.nb_segs other.first.nb_segs;
      pkt_len = add_u32 m.first.pkt_len other.first.pkt_len;
    };
    rest = record other.first { pkt_len = other.first.data_len; nb_segs = 1 } ∷ other.rest;
  })

-- `Appender`: `last_seg` is the last segment of the buffer, where `appender` puts it and `append_seg`
-- keeps it.
pub append_seg : ℕ → Mbuf → Mbuf → Outcome Mbuf
append_seg max_segs m other = do
  assert (num_segs other == 1)
  assert (leb (num_segs m) (max_segs - 1))
  ok (record {
    first = record m.first {
      nb_segs = add_u16 m.first.nb_segs 1;
      pkt_len = add_u32 m.first.pkt_len other.first.pkt_len;
    };
    rest = m.rest ++ (other.first ∷ other.rest);
  })

-- The slices that `seg_iter` gives until it gives none.
unfoldable pub seg_slices : List RteMbuf → List (List ℕ)
seg_slices [] = []
seg_slices (seg ∷ rest) = seg_data seg ∷ seg_slices rest

unfoldable pub seg_iter : Mbuf → List (List ℕ)
seg_iter m = seg_slices (m.first ∷ m.rest)

-- ===== src/Dpdk/Pbuf.antt =====
-- rpkt-dpdk/src/pbuf.rs: `Pbuf`, the cursor over a packet of several segments. `mbuf_cur` is the place of
-- the current segment in the chain, and `chunk_start` an offset into that segment's buffer. `usize` has
-- 64 bits, and its arithmetic wraps as in a release build.
pub mod Sound
pub mod Seek
pub mod Moves
pub mod Trim
pub mod Refine
use rpkt.Base.{ℕ, zero, suc, ◌+◌, ◌-◌, ◌%◌, ◌^◌, leb, ltb, ◌==◌, ◌&&◌, if◌then◌else◌}
use rpkt.Base.{List, [], ◌∷◌, Outcome, ok, ◌>>=◌, ◌>>◌, assert, take, drop}
use rpkt.Dpdk.Mbuf.{RteMbuf, Mbuf, len, truncate}

abbrev pub sub_usize : ℕ → ℕ → ℕ
sub_usize a b = (a + 2 ^ 64 - b) % 2 ^ 64

abbrev pub add_usize : ℕ → ℕ → ℕ
add_usize a b = (a + b) % 2 ^ 64

pub record Pbuf : Type 0 where
  pub mbuf_head : Mbuf
  pub mbuf_cur : ℕ
  pub chunk_start : ℕ
  pub chunk_len : ℕ
  pub segs_len : ℕ

-- The segment at a place of the chain. No `Pbuf` points behind the chain.
abbrev pub null_seg : RteMbuf
null_seg = record { buf = []; data_off = 0; data_len = 0; pkt_len = 0; nb_segs = 0 }

abbrev pub seg_at : List RteMbuf → ℕ → RteMbuf
seg_at [] i = null_seg
seg_at (seg ∷ rest) zero = seg
seg_at (seg ∷ rest) (suc i) = seg_at rest i

abbrev pub cur_seg : Pbuf → RteMbuf
cur_seg p = seg_at (p.mbuf_head.first ∷ p.mbuf_head.rest) p.mbuf_cur

pub new : Mbuf → Pbuf
new mbuf = record {
  mbuf_head = mbuf;
  mbuf_cur = 0;
  chunk_start = mbuf.first.data_off;
  chunk_len = mbuf.first.data_len;
  segs_len = mbuf.first.data_len;
}

pub cursor : Pbuf → ℕ
cursor p = sub_usize p.segs_len p.chunk_len

-- Where the loop of `advance_common` stops: a place, its segment, and the bytes up to its end.
pub record Stop : Type 0 where
  pub place : ℕ
  pub seg : RteMbuf
  pub reach : ℕ

-- The loop, at a segment with those that `next` links behind it.
pub seek : ℕ → ℕ → RteMbuf → List RteMbuf → ℕ → Stop
seek target place seg [] reach = record { place = place; seg = seg; reach = reach }
seek target place seg (next ∷ more) reach =
    let later = seek target (place + 1) next more (add_usize reach next.data_len) in
    if leb reach target then later else record { place = place; seg = seg; reach = reach }

-- What follows the loop.
pub stop_at : Pbuf → ℕ → Stop → Pbuf
stop_at p target stop = record p {
  mbuf_cur = stop.place;
  segs_len = stop.reach;
  chunk_len = sub_usize stop.reach target;
  chunk_start =
      add_usize stop.seg.data_off (sub_usize stop.seg.data_len (sub_usize stop.reach target));
}

pub advance_common : Pbuf → ℕ → Pbuf
advance_common p target = stop_at p target (
    seek target p.mbuf_cur (cur_seg p)
      (drop (p.mbuf_cur + 1) (p.mbuf_head.first ∷ p.mbuf_head.rest)) p.segs_len)

pub advance_slow : Pbuf → ℕ → Outcome Pbuf
advance_slow p cnt = do
  assert (leb cnt (sub_usize (len p.mbuf_head) (cursor p)))
  ok (advance_common p (add_usize (cursor p) cnt))

-- The first segment is the current one again.
abbrev pub reset : Pbuf → Pbuf
reset p = record p { mbuf_cur = 0; segs_len = p.mbuf_head.first.data_len }

pub move_back_slow : Pbuf → ℕ → Outcome Pbuf
move_back_slow p cnt = do
  assert (leb cnt (cursor p))
  ok (advance_common (reset p) (sub_usize (cursor p) cnt))

pub chunk : Pbuf → List ℕ
chunk p = take p.chunk_len (drop p.chunk_start (cur_seg p).buf)

pub advance : Pbuf → ℕ → Outcome Pbuf
advance p cnt =
    if leb p.chunk_len cnt
    then advance_slow p cnt
    else ok (record p {
      chunk_start = add_usize p.chunk_start cnt;
      chunk_len = sub_usize p.chunk_len cnt;
    })

pub remaining : Pbuf → ℕ
remaining p = sub_usize (len p.mbuf_head) (cursor p)

pub chunk_headroom : Pbuf → ℕ
chunk_headroom p = sub_usize (cur_seg p).data_len p.chunk_len

pub move_back : Pbuf → ℕ → Outcome Pbuf
move_back p cnt =
    if ltb (chunk_headroom p) cnt
    then move_back_slow p cnt
    else ok (record p {
      chunk_start = sub_usize p.chunk_start cnt;
      chunk_len = add_usize p.chunk_len cnt;
    })

pub trim_off : Pbuf → ℕ → Outcome Pbuf
trim_off p cnt = do
  assert (leb cnt (remaining p))
  let new_len = sub_usize (len p.mbuf_head) cnt
  mbuf ← truncate p.mbuf_head new_len
  if (cursor p == new_len) && (chunk_headroom p == 0)
      then ok (advance_common (reset (record p { mbuf_head = mbuf })) (cursor p))
      else ok (
          if ltb new_len p.segs_len
          then record p {
            mbuf_head = mbuf;
            chunk_len = sub_usize new_len (cursor p);
            segs_len = new_len;
          }
          else record p { mbuf_head = mbuf })

-- ===== src/Dpdk/Mbuf/Build.antt =====
-- `Mbuf::from_slice`. The pool of DPDK behind `Mempool::try_alloc` is a parameter: its state, and a
-- call that gives a buffer or none.
pub mod Segments
pub mod FromSlice
use rpkt.Base.{
  ℕ, zero, suc, ◌+◌, ◌-◌, ◌/◌, ◌%◌, ◌^◌, leb, ltb, ◌==◌, not, if◌then◌else◌, Bool, true, false,
}
use rpkt.Base.{
  List, [], ◌∷◌, ◌++◌, Option, none, some, Outcome, ok, panic, ◌>>=◌, ◌>>◌, assert, length, ◌≡◌,
  ◌≤◌,
}
use rpkt.Wire.{slice_to, slice_from}
use rpkt.Dpdk.Mbuf.{RteMbuf, Mbuf, capacity, extend_from_slice, add_u32, add_u16, as_u16}
use rpkt.Dpdk.Mbuf.Valid.{IsMbuf}

pub record Pool : Type 1 where
  pub State : Type 0
  pub try_alloc : State → Option Mbuf × State

-- A buffer as the pool hands it out: one empty segment with room for `cap` bytes.
pub record IsFresh (cap : ℕ) (m : Mbuf) : Type 0 where
  pub valid : IsMbuf m
  pub single : m.rest ≡ []
  pub empty : m.first.data_len ≡ 0
  pub room : m.first.data_off + cap ≡ length m.first.buf

-- `rte_pktmbuf_alloc` resets the buffer that it gives, and the buffers of a pool have one size.
pub record IsPool (A : Pool) (cap : ℕ) : Type 0 where
  pub alloc_fresh : (s t : A.State) (m : Mbuf) → A.try_alloc s ≡ (some m, t) → IsFresh cap m

-- `cur_seg.next = mbuf.into_raw()`, where `cur_seg` is the last segment.
pub link : Mbuf → Mbuf → Mbuf
link m new = record m { rest = m.rest ++ (new.first ∷ new.rest) }

module _ (A : Pool) (max_segs : ℕ) where
  -- `let mut mbuf = mempool.try_alloc()?; mbuf.extend_from_slice(part); cur_seg.next = ...`
  pub add_seg : Mbuf → List ℕ → A.State → Outcome (Option Mbuf × A.State)
  add_seg m part s =
      let (got, t) = A.try_alloc s in
      elim got [
        | none ↦ ok (none, t)
        | some new ↦ extend_from_slice new part >>= λ full. ok (some (link m full), t)
      ]

  -- The loop, for the rounds that are left: the buffer so far, the rest of the source.
  pub fill_segs : ℕ → ℕ → Mbuf → List ℕ → A.State → Outcome (Option (Mbuf × List ℕ) × A.State)
  fill_segs zero chunk_cap m source s = ok (some (m, source), s)
  fill_segs (suc rounds) chunk_cap m source s = do
    part ← slice_to source chunk_cap
    (more, t) ← add_seg m part s
    rest ← slice_from source chunk_cap
    elim more [ none ↦ ok (none, t) | some longer ↦ fill_segs rounds chunk_cap longer rest t ]

  -- `fst_seg.pkt_len += source_len as u32; fst_seg.nb_segs += total_remaining_segs as u16`
  pub count_segs : Mbuf → ℕ → ℕ → Mbuf
  count_segs m source_len segs = record m {
    first = record m.first {
      pkt_len = add_u32 m.first.pkt_len (source_len % 2 ^ 32);
      nb_segs = add_u16 m.first.nb_segs (as_u16 segs);
    };
  }

  pub from_slice_slow : List ℕ → Mbuf → ℕ → A.State → Outcome (Option Mbuf × A.State)
  from_slice_slow source fst_seg chunk_cap s = do
    assert (ltb 0 (length source))
    assert (not (chunk_cap == 0))
    let segs = (length source - 1) / chunk_cap + 1
    if ltb (max_segs - 1) segs
        then ok (none, s)
        else (fill_segs (segs - 1) chunk_cap fst_seg source s >>= λ r. elim r.0 [
          | none ↦ ok (none, r.1)
          | some (m, last) ↦ add_seg m last r.1 >>= λ q. elim q.0 [
            | none ↦ ok (none, q.1)
            | some whole ↦ ok (some (count_segs whole (length source) segs), q.1)
          ]
        ])

  pub from_slice : List ℕ → A.State → Outcome (Option Mbuf × A.State)
  from_slice source s =
      let (got, t) = A.try_alloc s in
      elim got [
        | none ↦ ok (none, t)
        | some fst_seg ↦ capacity fst_seg >>= λ cap.
            if leb (length source) cap
            then (extend_from_slice fst_seg source >>= λ m. ok (some m, t))
            else (slice_to source cap >>= λ part. extend_from_slice fst_seg part >>= λ m.
                slice_from source cap >>= λ rest. from_slice_slow rest m cap t)
      ]

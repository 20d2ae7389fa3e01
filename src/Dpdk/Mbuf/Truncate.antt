-- ===== src/Dpdk/Mbuf/Truncate.antt =====
-- `truncate` over a chain of segments.
use rpkt.Base.{
  ℕ, ◌+◌, ◌-◌, ◌≤◌, ◌<◌, ◌%◌, ◌^◌, ltb, leb, if◌then◌else◌, Bool, true, false, Bool-cases, ltb→lt,
  ltb-false, le→ltb, leb→le, leb-false, ◌⊎◌,
}
use rpkt.Base.{
  List, [], ◌∷◌, ◌++◌, ok, panic, length, take, drop, All, ◌≡◌, refl, arith, ap, ◌∙◌, sym, inl, inr,
}
use rpkt.Base.{take-append_le, take_into, take-take, append-nil}
use rpkt.Packet.Laws.{ok_then}
use rpkt.Dpdk.Mbuf.{RteMbuf, Mbuf, seg_data, Kept, cut_segs, truncate, len, as_u16}
use rpkt.Dpdk.Mbuf.Valid.{IsSeg, total, IsMbuf, bytes_of, bytes, length-seg_data, total-bound}

-- What `cut_segs` leaves of the segments `seg ∷ rest` for `n` bytes.
pub record IsCut (n : ℕ) (seg : RteMbuf) (rest : List RteMbuf) (k : Kept) : Type 0 where
  pub segs : All IsSeg (k.seg ∷ k.behind)
  pub size : total (k.seg ∷ k.behind) ≡ n
  pub bytes : bytes_of (k.seg ∷ k.behind) ≡ take n (bytes_of (seg ∷ rest))
  pub count : k.nb_segs ≡ length (k.seg ∷ k.behind)
  pub fewer : length (k.seg ∷ k.behind) ≤ length (seg ∷ rest)
  pub all_kept : k.freed ≡ false → length (k.seg ∷ k.behind) ≡ length (seg ∷ rest)

abbrev pub Cuts : ℕ → RteMbuf → List RteMbuf → Type 0
Cuts n seg rest = (k : Kept) × (cut_segs n seg rest ≡ ok k) × IsCut n seg rest k

abbrev shortened : RteMbuf → ℕ → RteMbuf
shortened seg n = record seg { data_len = as_u16 n }

module _ (n : ℕ) (seg : RteMbuf) (rest : List RteMbuf) (s : IsSeg seg) (h : n ≤ seg.data_len) where
  fits : as_u16 n ≡ n
  fits = omega arith

  bytes-shortened : seg_data (shortened seg n) ++ [] ≡ take n (bytes_of (seg ∷ rest))
  bytes-shortened =
      let e : seg_data (shortened seg n) ≡ take n (seg_data seg) =
        unfold seg_data in
        ap (λ m. take m (drop seg.data_off seg.buf)) fits
        ∙ sym (take-take n seg.data_len (drop seg.data_off seg.buf) h) in
      append-nil (seg_data (shortened seg n))
      ∙ e
      ∙ sym (take-append_le n (seg_data seg) (bytes_of rest) (omega (arith, length-seg_data seg s)))

  -- The segment in which the last byte lies.
  last-IsCut :
      (freed : Bool)
      → (freed ≡ false → 1 ≡ length (seg ∷ rest))
      → IsCut n seg rest (record { seg = shortened seg n; behind = []; nb_segs = 1; freed = freed })
  last-IsCut freed all = record {
    segs = omega (arith, fits);
    size = omega (arith, fits);
    bytes = bytes-shortened;
    count = refl;
    fewer = omega arith;
    all_kept = all;
  }

earlier-IsCut :
    (n : ℕ) (seg next : RteMbuf) (more : List RteMbuf) (k : Kept)
    → IsSeg seg
    → seg.data_len < n
    → length (seg ∷ next ∷ more) < 2 ^ 16
    → IsCut (n - seg.data_len) next more k
    → IsCut n seg (next ∷ more) (record {
      seg = seg;
      behind = k.seg ∷ k.behind;
      nb_segs = (1 + k.nb_segs) % 2 ^ 16;
      freed = k.freed;
    })
earlier-IsCut n seg next more k s h small c = record {
  segs = (s, c.segs);
  size = omega (arith, c.size);
  bytes =
      ap (λ z. seg_data seg ++ z) c.bytes
      ∙ sym (
          take_into (seg_data seg) (bytes_of (next ∷ more)) n (n - seg.data_len)
            (omega (arith, length-seg_data seg s)));
  count = omega (arith, c.count, c.fewer);
  fewer = omega (arith, c.fewer);
  all_kept = λ e. omega (arith, c.all_kept e);
}

pub cut_segs_ok :
    (n : ℕ) (seg : RteMbuf) (rest : List RteMbuf)
    → All IsSeg (seg ∷ rest)
    → length (seg ∷ rest) < 2 ^ 16
    → n ≤ total (seg ∷ rest)
    → Cuts n seg rest
unfolding cut_segs
cut_segs_ok n seg [] s small h = (
  _,
  rw (le→ltb n seg.data_len (omega arith)),
  last-IsCut n seg [] s.0 (omega arith) false (λ e. refl),
)
cut_segs_ok n seg (next ∷ more) s small h = elim (Bool-cases (ltb seg.data_len n)) [
  | inl longer ↦
      let less : seg.data_len < n = ltb→lt seg.data_len n longer in
      let (k, e, c) = cut_segs_ok (n - seg.data_len) next more s.1 (omega arith) (omega arith) in
      (_, rw (longer, e), earlier-IsCut n seg next more k s.0 less small c)
  | inr enough ↦ (
    _,
    rw enough,
    last-IsCut n seg (next ∷ more) s.0 (ltb-false seg.data_len n enough) true (λ e. cc),
  )
]

-- The number of segments in the first one.
kept_count :
    (m : Mbuf) (n : ℕ) (k : Kept)
    → IsMbuf m
    → IsCut n m.first m.rest k
    → (if k.freed then k.nb_segs else m.first.nb_segs) ≡ length (k.seg ∷ k.behind)
kept_count m n k v c = elim (Bool-cases k.freed) [
  | inl yes_freed ↦ rw yes_freed c.count
  | inr none_freed ↦ rw none_freed (omega (arith, v.count, c.all_kept none_freed))
]

abbrev pub truncated : Mbuf → ℕ → Kept → Mbuf
truncated m cnt k = record {
  first = record k.seg {
    pkt_len = cnt % 2 ^ 32;
    nb_segs = if k.freed then k.nb_segs else m.first.nb_segs;
  };
  rest = k.behind;
}

truncated-IsMbuf :
    (m : Mbuf) (cnt : ℕ) (k : Kept)
    → IsMbuf m
    → cnt ≤ m.first.pkt_len
    → IsCut cnt m.first m.rest k
    → IsMbuf (truncated m cnt k)
      × (bytes (truncated m cnt k) ≡ take cnt (bytes m))
      × (length k.behind ≤ length m.rest)
unfolding seg_data
truncated-IsMbuf m cnt k v h c =
    let small : m.first.pkt_len < 2 ^ 32 =
      omega (arith, v.packet, v.count, v.few, total-bound (m.first ∷ m.rest) v.segs) in
    (
      record {
        segs = c.segs;
        packet = omega (arith, c.size);
        count = kept_count m cnt k v c;
        few = omega (arith, kept_count m cnt k v c, c.fewer, v.count, v.few);
      },
      c.bytes,
      omega (arith, c.fewer),
    )

-- `truncate` of a well-formed buffer to `cnt` bytes, at most its length, returns a well-formed buffer
-- of at most as many segments that holds the first `cnt` bytes; to more bytes it panics.
pub truncate-take :
    (m : Mbuf) (cnt : ℕ)
    → IsMbuf m
    → ((cnt ≤ len m)
        × ((m' : Mbuf) × (truncate m cnt ≡ ok m')
            × IsMbuf m'
            × (bytes m' ≡ take cnt (bytes m))
            × (length m'.rest ≤ length m.rest)))
      ⊎ ((len m < cnt) × (truncate m cnt ≡ panic))
unfolding truncate len
truncate-take m cnt v = elim (Bool-cases (leb cnt m.first.pkt_len)) [
  | inl within ↦
      let h : cnt ≤ m.first.pkt_len = leb→le cnt m.first.pkt_len within in
      let (k, e, c) =
        cut_segs_ok cnt m.first m.rest v.segs (omega (arith, v.count, v.few))
          (omega (arith, v.packet)) in
      let (v', b, f) = truncated-IsMbuf m cnt k v h c in
      inl (h, (truncated m cnt k, rw within (ok_then _ k e refl), v', b, f))
  | inr beyond ↦ inr (leb-false cnt m.first.pkt_len beyond, rw beyond)
]

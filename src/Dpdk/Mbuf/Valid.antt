-- ===== src/Dpdk/Mbuf/Valid.antt =====
-- The invariant of `Mbuf`, and the bytes that it holds.
use rpkt.Base.{
  ℕ, ◌+◌, ◌≤◌, ◌<◌, ◌^◌, List, [], ◌∷◌, ◌++◌, ◌*◌, append_assoc, length, drop, All, ◌≡◌, refl,
  arith, ap, ◌∙◌, sym,
}
use rpkt.Base.{length-append, length-take, length-drop}
use rpkt.Dpdk.Mbuf.{RteMbuf, Mbuf, seg_data}

-- The data lies in the segment's buffer, whose length is a u16.
abbrev pub IsSeg : RteMbuf → Type 0
IsSeg seg = (seg.data_off + seg.data_len ≤ length seg.buf) × (length seg.buf < 2 ^ 16)

abbrev pub total : List RteMbuf → ℕ
total [] = 0
total (seg ∷ rest) = seg.data_len + total rest

pub record IsMbuf (m : Mbuf) : Type 0 where
  pub segs : All IsSeg (m.first ∷ m.rest)
  pub packet : m.first.pkt_len ≡ total (m.first ∷ m.rest)
  pub count : m.first.nb_segs ≡ length (m.first ∷ m.rest)
  pub few : m.first.nb_segs < 2 ^ 16

abbrev pub bytes_of : List RteMbuf → List ℕ
bytes_of [] = []
bytes_of (seg ∷ rest) = seg_data seg ++ bytes_of rest

-- The bytes of the packet.
abbrev pub bytes : Mbuf → List ℕ
bytes m = bytes_of (m.first ∷ m.rest)

pub length-seg_data : (seg : RteMbuf) → IsSeg seg → length (seg_data seg) ≡ seg.data_len
unfolding seg_data
length-seg_data seg h =
    omega (
      arith,
      length-take seg.data_len (drop seg.data_off seg.buf),
      length-drop seg.data_off seg.buf,
    )

pub length-bytes_of : (segs : List RteMbuf) → All IsSeg segs → length (bytes_of segs) ≡ total segs
length-bytes_of [] h = refl
length-bytes_of (seg ∷ rest) h = omega (
  arith,
  length-append (seg_data seg) (bytes_of rest),
  length-seg_data seg h.0,
  length-bytes_of rest h.1,
)

pub bytes_of-append : (xs ys : List RteMbuf) → bytes_of (xs ++ ys) ≡ bytes_of xs ++ bytes_of ys
bytes_of-append [] ys = refl
bytes_of-append (x ∷ xs) ys =
    ap (λ z. seg_data x ++ z) (bytes_of-append xs ys)
    ∙ sym (append_assoc (seg_data x) (bytes_of xs) (bytes_of ys))

pub total-append : (xs ys : List RteMbuf) → total (xs ++ ys) ≡ total xs + total ys
total-append [] ys = omega arith
total-append (x ∷ xs) ys = omega (arith, total-append xs ys)

-- The bytes fit in 32 bits.
pub total-bound : (segs : List RteMbuf) → All IsSeg segs → total segs ≤ length segs * 65535
total-bound [] h = omega arith
total-bound (seg ∷ rest) h = omega (arith, total-bound rest h.1)

-- The length that the first segment states is the number of bytes.
pub length-bytes : (m : Mbuf) → IsMbuf m → length (bytes m) ≡ m.first.pkt_len
length-bytes m v = length-bytes_of (m.first ∷ m.rest) v.segs ∙ sym v.packet

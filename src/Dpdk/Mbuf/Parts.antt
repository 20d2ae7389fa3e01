-- ===== src/Dpdk/Mbuf/Parts.antt =====
-- `truncate` behind a place in the chain: the segments in front of that place stay, and the segment
-- there loses the bytes that lie beyond the new end.
use rpkt.Base.{
  ℕ, suc, Bool, false, ◌+◌, ◌-◌, ◌≤◌, ◌<◌, ◌%◌, ◌^◌, ltb, true, Bool-cases, ltb→lt, ltb-false,
  le→ltb, le→leb, lt→ltb,
}
use rpkt.Base.{
  List, [], ◌∷◌, ◌++◌, Outcome, ok, panic, length, All, ◌≡◌, refl, arith, ap, ◌∙◌, sym, subst, inl,
  inr,
}
use rpkt.Packet.Laws.{ok_then}
use rpkt.Dpdk.Mbuf.{RteMbuf, Mbuf, Kept, cut_segs, truncate, len, as_u16}
use rpkt.Dpdk.Mbuf.Valid.{IsSeg, total, IsMbuf}
use rpkt.Dpdk.Mbuf.Truncate.{cut_segs_ok, truncated}

-- The segments `segs` are `pre`, `seg` and others, cut at `n` bytes.
pub record IsShort (n : ℕ) (pre : List RteMbuf) (seg : RteMbuf) (segs : List RteMbuf) : Type 0 where
  pub front : List RteMbuf
  pub here : RteMbuf
  pub behind : List RteMbuf
  pub parts : segs ≡ front ++ (here ∷ behind)
  pub places : length front ≡ length pre
  pub sums : total front ≡ total pre
  pub off : here.data_off ≡ seg.data_off
  pub cut : n ≤ total pre + seg.data_len → here.data_len + total pre ≡ n
  pub whole : total pre + seg.data_len ≤ n → here.data_len ≡ seg.data_len

abbrev Shortens : ℕ → List RteMbuf → RteMbuf → Outcome Kept → Type 0
Shortens n pre seg o = (k : Kept) × (o ≡ ok k) × IsShort n pre seg (k.seg ∷ k.behind)

-- The last segment that stays, with `n` bytes.
abbrev last_kept : ℕ → RteMbuf → Bool → Kept
last_kept n seg freed = record {
  seg = record seg { data_len = as_u16 n };
  behind = [];
  nb_segs = 1;
  freed = freed;
}

-- A segment that stays, in front of others.
abbrev pushed : RteMbuf → Kept → Kept
pushed seg k = record {
  seg = seg;
  behind = k.seg ∷ k.behind;
  nb_segs = (1 + k.nb_segs) % 2 ^ 16;
  freed = k.freed;
}

shortened-IsShort :
    (n : ℕ) (seg : RteMbuf)
    → IsSeg seg
    → n ≤ seg.data_len
    → IsShort n [] seg (record seg { data_len = as_u16 n } ∷ [])
shortened-IsShort n seg s h = record {
  front = [];
  here = record seg { data_len = as_u16 n };
  behind = [];
  parts = refl;
  places = refl;
  sums = refl;
  off = refl;
  cut = λ e. omega arith;
  whole = λ e. omega arith;
}

cut_here :
    (n : ℕ) (seg : RteMbuf) (post : List RteMbuf)
    → All IsSeg (seg ∷ post)
    → length (seg ∷ post) < 2 ^ 16
    → n ≤ total (seg ∷ post)
    → Shortens n [] seg (cut_segs n seg post)
unfolding cut_segs
cut_here n seg [] s small h =
    let fits : n ≤ seg.data_len = omega arith in
    (last_kept n seg false, rw (le→ltb n seg.data_len fits), shortened-IsShort n seg s.0 fits)
cut_here n seg (next ∷ more) s small h = elim (Bool-cases (ltb seg.data_len n)) [
  | inl longer ↦
      let less : seg.data_len < n = ltb→lt seg.data_len n longer in
      let (k, e, c) = cut_segs_ok (n - seg.data_len) next more s.1 (omega arith) (omega arith) in
      (
        pushed seg k,
        rw (longer, e),
        record {
          front = [];
          here = seg;
          behind = k.seg ∷ k.behind;
          parts = refl;
          places = refl;
          sums = refl;
          off = refl;
          cut = λ f. omega arith;
          whole = λ f. refl;
        },
      )
  | inr enough ↦ (
    last_kept n seg true,
    rw enough,
    shortened-IsShort n seg s.0 (ltb-false seg.data_len n enough),
  )
]

earlier-Shortens :
    (n : ℕ) (x y : RteMbuf) (more pre : List RteMbuf) (seg : RteMbuf)
    → x.data_len < n
    → Shortens (n - x.data_len) pre seg (cut_segs (n - x.data_len) y more)
    → Shortens n (x ∷ pre) seg (cut_segs n x (y ∷ more))
unfolding cut_segs
earlier-Shortens n x y more pre seg h (k, e, c) = (
  pushed x k,
  rw (lt→ltb x.data_len n h, e),
  record {
    front = x ∷ c.front;
    here = c.here;
    behind = c.behind;
    parts = ap (λ z. x ∷ z) c.parts;
    places = ap suc c.places;
    sums = omega (arith, c.sums);
    off = c.off;
    cut = λ f. omega (arith, c.cut (omega arith));
    whole = λ f. c.whole (omega arith);
  },
)

cut_list : ℕ → List RteMbuf → Outcome Kept
cut_list n [] = panic
cut_list n (seg ∷ rest) = cut_segs n seg rest

cut_parts :
    (n : ℕ) (pre : List RteMbuf) (seg : RteMbuf) (post : List RteMbuf)
    → All IsSeg (pre ++ (seg ∷ post))
    → length (pre ++ (seg ∷ post)) < 2 ^ 16
    → n ≤ total (pre ++ (seg ∷ post))
    → total pre < n
    → Shortens n pre seg (cut_list n (pre ++ (seg ∷ post)))
unfolding cut_list
cut_parts n [] seg post s small h below = cut_here n seg post s small h
cut_parts n (x ∷ []) seg post s small h below =
    earlier-Shortens n x seg post [] seg (omega arith)
      (cut_here (n - x.data_len) seg post s.1 (omega arith) (omega arith))
cut_parts n (x ∷ y ∷ pre) seg post s small h below =
    earlier-Shortens n x y (pre ++ (seg ∷ post)) (y ∷ pre) seg (omega arith)
      (cut_parts (n - x.data_len) (y ∷ pre) seg post s.1 (omega arith) (omega arith) (omega arith))

head_or : List RteMbuf → RteMbuf → RteMbuf
head_or [] seg = seg
head_or (x ∷ xs) seg = x

tail_of : List RteMbuf → List RteMbuf
tail_of [] = []
tail_of (x ∷ xs) = xs

-- The counts in the first segment do not matter.
recount-IsShort :
    (n : ℕ) (pre : List RteMbuf) (seg first : RteMbuf) (rest : List RteMbuf) (pkt_len nb_segs : ℕ)
    → IsShort n pre seg (first ∷ rest)
    → IsShort n pre seg (record first { pkt_len = pkt_len; nb_segs = nb_segs } ∷ rest)
unfolding head_or tail_of
recount-IsShort n pre seg first rest pkt_len nb_segs c = at c.front c.parts c.places c.sums
  where
    at :
        (front : List RteMbuf)
        → first ∷ rest ≡ front ++ (c.here ∷ c.behind)
        → length front ≡ length pre
        → total front ≡ total pre
        → IsShort n pre seg (record first { pkt_len = pkt_len; nb_segs = nb_segs } ∷ rest)
    at [] e l t =
        let same : first ≡ c.here = ap (λ z. head_or z first) e in
        record {
          front = [];
          here = record first { pkt_len = pkt_len; nb_segs = nb_segs };
          behind = rest;
          parts = refl;
          places = l;
          sums = t;
          off = ap (λ x. x.data_off) same ∙ c.off;
          cut = λ f. omega (arith, c.cut f, ap (λ x. x.data_len) same);
          whole = λ f. ap (λ x. x.data_len) same ∙ c.whole f;
        }
    at (x ∷ xs) e l t =
        let same : first ≡ x = ap (λ z. head_or z first) e in
        record {
          front = record first { pkt_len = pkt_len; nb_segs = nb_segs } ∷ xs;
          here = c.here;
          behind = c.behind;
          parts =
              ap (λ z. record first { pkt_len = pkt_len; nb_segs = nb_segs } ∷ z) (ap tail_of e);
          places = l;
          sums = omega (arith, t, ap (λ y. y.data_len) same);
          off = c.off;
          cut = c.cut;
          whole = c.whole;
        }

value_or : Mbuf → Outcome Mbuf → Mbuf
value_or m (ok m') = m'
value_or m panic = m

pub truncate-IsShort :
    (m m' : Mbuf) (n : ℕ) (pre : List RteMbuf) (seg : RteMbuf) (post : List RteMbuf)
    → IsMbuf m
    → m.first ∷ m.rest ≡ pre ++ (seg ∷ post)
    → n ≤ m.first.pkt_len
    → total pre < n
    → truncate m n ≡ ok m'
    → IsShort n pre seg (m'.first ∷ m'.rest)
unfolding truncate len cut_list value_or
truncate-IsShort m m' n pre seg post v e h below t =
    let (k, f, c) =
      cut_parts n pre seg post (subst (All IsSeg) e v.segs)
        (omega (arith, ap length e, v.count, v.few)) (omega (arith, ap total e, v.packet)) below in
    let same : truncate m n ≡ ok (truncated m n k) =
      rw (le→leb n m.first.pkt_len h) (ok_then _ k (ap (cut_list n) e ∙ f) refl) in
    subst (λ x. IsShort n pre seg (x.first ∷ x.rest)) (ap (value_or m) (sym same ∙ t))
      (recount-IsShort n pre seg k.seg k.behind _ _ c)

-- ===== src/Dpdk/Pbuf/Refine.antt =====
-- A `Pbuf` against its view: the bytes of the packet, and a position in them.
use rpkt.Base.{
  ℕ, ◌+◌, ◌-◌, ◌≤◌, ◌<◌, ◌%◌, ◌^◌, leb, ltb, ltb→lt, ltb-false, Bool-cases, le→leb, lt→leb, List,
  [], ◌∷◌, Outcome, ok, panic, ◌>>=◌, length, take, drop, if◌then◌else◌, ◌≡◌, ◌⊎◌, inl, inr, refl,
  sym, ap, ◌∙◌, arith,
}
use rpkt.Dpdk.Mbuf.{Mbuf}
use rpkt.Dpdk.Mbuf.Valid.{IsMbuf, bytes, length-bytes}
use rpkt.Dpdk.Pbuf.{Pbuf, new, cursor, remaining, chunk, advance, move_back, trim_off}
use rpkt.Dpdk.Pbuf.Sound.{IsPbuf, new-IsPbuf, remaining_ok, cursor-bound, cursor_ok, chunk-drop}
use rpkt.Dpdk.Pbuf.Trim.{trim_off-take}
use rpkt.Dpdk.Pbuf.Moves.{advance-Lands, move_back-Lands}

pub data Move : Type 0 where
  forward back trim : ℕ → Move

pub record View : Type 0 where
  pub bytes : List ℕ
  pub pos : ℕ

-- What a call does to the view.
abbrev pub shift : Move → View → Outcome View
shift (forward cnt) v =
    if leb cnt (length v.bytes - v.pos) then ok (record v { pos = v.pos + cnt }) else panic
shift (back cnt) v = if leb cnt v.pos then ok (record v { pos = v.pos - cnt }) else panic
shift (trim cnt) v =
    if leb cnt (length v.bytes - v.pos)
    then ok (record v { bytes = take (length v.bytes - cnt) v.bytes })
    else panic

abbrev pub shift_all : List Move → View → Outcome View
shift_all [] v = ok v
shift_all (move ∷ moves) v = shift move v >>= λ v'. shift_all moves v'

pub perform : Move → Pbuf → Outcome Pbuf
perform (forward cnt) p = advance p cnt
perform (back cnt) p = move_back p cnt
perform (trim cnt) p = trim_off p cnt

pub perform_all : List Move → Pbuf → Outcome Pbuf
perform_all [] p = ok p
perform_all (move ∷ moves) p = perform move p >>= perform_all moves

-- The readings of a `Pbuf` agree with a view.
pub record Shows (p : Pbuf) (v : View) : Type 0 where
  pub at : cursor p ≡ v.pos
  pub left : remaining p ≡ length v.bytes - v.pos
  pub within : v.pos ≤ length v.bytes
  pub front : chunk p ≡ take p.chunk_len (drop v.pos v.bytes)
  pub live : (0 < p.chunk_len) ⊎ (remaining p ≡ 0)

view : Pbuf → View
view p = record { bytes = bytes p.mbuf_head; pos = cursor p }

IsPbuf-Shows : (p : Pbuf) → IsPbuf p → Shows p (view p)
unfolding view
IsPbuf-Shows p s = record {
  at = refl;
  left = omega (arith, remaining_ok p s, length-bytes p.mbuf_head s.valid);
  within = omega (arith, cursor-bound p s, length-bytes p.mbuf_head s.valid);
  front = chunk-drop p s;
  live = elim (Bool-cases (ltb 0 p.chunk_len)) [
    | inl full ↦ inl (ltb→lt 0 p.chunk_len full)
    | inr empty ↦
        let zero_len : p.chunk_len ≤ 0 = ltb-false 0 p.chunk_len empty in
        inr (elim s.live [
          | inl full ↦ absurd (omega arith)
          | inr end ↦ omega (arith, remaining_ok p s, cursor_ok p s, s.reach)
        ])
  ];
}

abbrev Agree : Outcome View → Outcome Pbuf → Type 0
Agree o q =
    ((o ≡ panic) × (q ≡ panic)) ⊎ ((p' : Pbuf) × (q ≡ ok p') × IsPbuf p' × (o ≡ ok (view p')))

perform-Agree : (move : Move) (p : Pbuf) → IsPbuf p → Agree (shift move (view p)) (perform move p)
unfolding perform view
perform-Agree (forward cnt) p s =
    let left : remaining p ≡ length (bytes p.mbuf_head) - cursor p = (IsPbuf-Shows p s).left in
    elim (advance-Lands p s cnt) [
      | inl (h, (p', e, (s', same, at))) ↦ inr (
        p',
        e,
        s',
        rw (le→leb cnt (length (bytes p.mbuf_head) - cursor p) (omega arith))
            (λ i. ok (record { bytes = bytes (sym same i); pos = sym at i })),
      )
      | inr (h, e) ↦
          inl (rw (lt→leb cnt (length (bytes p.mbuf_head) - cursor p) (omega arith)) refl, e)
    ]
perform-Agree (back cnt) p s = elim (move_back-Lands p s cnt) [
  | inl (h, (p', e, (s', same, at))) ↦ inr (
    p',
    e,
    s',
    rw (le→leb cnt (cursor p) h) (λ i. ok (record { bytes = bytes (sym same i); pos = sym at i })),
  )
  | inr (h, e) ↦ inl (rw (lt→leb cnt (cursor p) h) refl, e)
]
perform-Agree (trim cnt) p s =
    let left : remaining p ≡ length (bytes p.mbuf_head) - cursor p = (IsPbuf-Shows p s).left in
    let size : length (bytes p.mbuf_head) ≡ p.mbuf_head.first.pkt_len =
      length-bytes p.mbuf_head s.valid in
    elim (trim_off-take p cnt s) [
      | inl (h, (p', e, (s', b, at))) ↦ inr (
        p',
        e,
        s',
        rw (le→leb cnt (length (bytes p.mbuf_head) - cursor p) (omega arith)) (λ i. ok (record {
          bytes = (ap (λ (n : ℕ). take (n - cnt) (bytes p.mbuf_head)) size ∙ sym b) i;
          pos = sym at i;
        })),
      )
      | inr (h, e) ↦
          inl (rw (lt→leb cnt (length (bytes p.mbuf_head) - cursor p) (omega arith)) refl, e)
    ]

perform_all-Agree :
    (moves : List Move) (p : Pbuf)
    → IsPbuf p
    → Agree (shift_all moves (view p)) (perform_all moves p)
unfolding perform_all
perform_all-Agree [] p s = inr (p, refl, s, refl)
perform_all-Agree (move ∷ moves) p s = elim (perform-Agree move p s) [
  | inl (e, f) ↦ inl (rw e refl, rw f refl)
  | inr (p', f, s', e) ↦ elim (perform_all-Agree moves p' s') [
    | inl (e', f') ↦ inl (rw e e', rw f f')
    | inr (p2, f', s2, e') ↦ inr (p2, rw f f', s2, rw e e')
  ]
]

view-new : (m : Mbuf) → record { bytes = bytes m; pos = 0 } ≡ view (new m)
unfolding view new cursor
view-new m = λ i. record { bytes = bytes m; pos = start i }
  where
    start : 0 ≡ (m.first.data_len + 2 ^ 64 - m.first.data_len) % 2 ^ 64
    start = omega arith

-- On a well-formed packet that is empty or whose first segment is not: a sequence of `advance`,
-- `move_back` and `trim_off` on a new `Pbuf` panics if and only if the same calls on a list of the
-- packet's bytes with a position panic. Otherwise the cursor is at that position, `remaining` counts the
-- bytes from there on, and `chunk` is a prefix of them that is empty at the end only.
pub perform_all-shift_all :
    (m : Mbuf) (moves : List Move)
    → IsMbuf m
    → (0 < m.first.data_len) ⊎ (m.first.data_len ≡ m.first.pkt_len)
    → ((shift_all moves (record { bytes = bytes m; pos = 0 }) ≡ panic)
        × (perform_all moves (new m) ≡ panic))
      ⊎ ((p : Pbuf) × (v : View) × (perform_all moves (new m) ≡ ok p)
          × (shift_all moves (record { bytes = bytes m; pos = 0 }) ≡ ok v)
          × Shows p v)
perform_all-shift_all m moves valid h =
    elim (perform_all-Agree moves (new m) (new-IsPbuf m valid h)) [
      | inl (e, f) ↦ inl (ap (shift_all moves) (view-new m) ∙ e, f)
      | inr (p, f, s', e) ↦
          inr (p, view p, f, ap (shift_all moves) (view-new m) ∙ e, IsPbuf-Shows p s')
    ]

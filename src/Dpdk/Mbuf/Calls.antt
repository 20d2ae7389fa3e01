-- ===== src/Dpdk/Mbuf/Calls.antt =====
-- Sequences of calls on a buffer, against the list of its bytes.
use rpkt.Base.{
  ℕ, ◌<◌, ◌^◌, List, [], ◌∷◌, ◌++◌, Outcome, ok, panic, ◌>>=◌, take, drop, ◌≡◌, refl, ap, ◌∙◌, inl,
  inr, ◌⊎◌,
}
use rpkt.Dpdk.Mbuf.{
  Mbuf, extend_from_slice, extend_front_from_slice, trim_front, truncate, chain, append_seg,
}
use rpkt.Dpdk.Mbuf.Valid.{IsMbuf, bytes}
use rpkt.Dpdk.Mbuf.Truncate.{truncate-take}
use rpkt.Dpdk.Mbuf.Edit.{extend_from_slice-append}
use rpkt.Dpdk.Mbuf.Front.{extend_front_from_slice-append, trim_front-drop}
use rpkt.Dpdk.Mbuf.Join.{chain-Joins, append_seg-Joins}

pub data Call : Type 0 where
  append_slice : List ℕ → Call
  prepend_slice : List ℕ → Call
  trim : ℕ → Call
  cut : ℕ → Call
  chain_other : Mbuf → Call
  append_other : Mbuf → Call

-- The buffers that a call takes are well-formed.
abbrev pub IsSound : Call → Type 0
IsSound (chain_other other) = IsMbuf other
IsSound (append_other other) = IsMbuf other
IsSound _ = Unit {0}

abbrev pub AreSound : List Call → Type 0
AreSound [] = Unit {0}
AreSound (c ∷ cs) = IsSound c × AreSound cs

-- What a call does to the bytes.
abbrev pub effect : Call → List ℕ → List ℕ
effect (append_slice slice) y = y ++ slice
effect (prepend_slice slice) y = slice ++ y
effect (trim cnt) y = drop cnt y
effect (cut cnt) y = take cnt y
effect (chain_other other) y = y ++ bytes other
effect (append_other other) y = y ++ bytes other

abbrev pub effects : List Call → List ℕ → List ℕ
effects [] y = y
effects (c ∷ cs) y = effects cs (effect c y)

module _ (max_segs : ℕ) where
  pub perform : Call → Mbuf → Outcome Mbuf
  perform (append_slice slice) m = extend_from_slice m slice
  perform (prepend_slice slice) m = extend_front_from_slice m slice
  perform (trim cnt) m = trim_front m cnt
  perform (cut cnt) m = truncate m cnt
  perform (chain_other other) m = chain max_segs m other
  perform (append_other other) m = append_seg max_segs m other

  pub perform_all : List Call → Mbuf → Outcome Mbuf
  perform_all [] m = ok m
  perform_all (c ∷ cs) m = perform c m >>= perform_all cs

  abbrev Keeps : List ℕ → Outcome Mbuf → Type 0
  Keeps y o = ((m' : Mbuf) × (o ≡ ok m') × IsMbuf m' × (bytes m' ≡ y)) ⊎ (o ≡ panic)

  module _ (few : max_segs < 2 ^ 16) where
    perform-Keeps :
        (c : Call) (m : Mbuf) → IsMbuf m → IsSound c → Keeps (effect c (bytes m)) (perform c m)
    unfolding perform
    perform-Keeps (append_slice slice) m v u = elim (extend_from_slice-append m v slice) [
      | inl (m', e, one, room, v', b) ↦ inl (m', e, v', b)
      | inr (why, e) ↦ inr e
    ]
    perform-Keeps (prepend_slice slice) m v u = elim (extend_front_from_slice-append m v slice) [
      | inl (m', e, room, v', b) ↦ inl (m', e, v', b)
      | inr (why, e) ↦ inr e
    ]
    perform-Keeps (trim cnt) m v u = elim (trim_front-drop m v cnt) [
      | inl (m', e, room, v', b) ↦ inl (m', e, v', b)
      | inr (why, e) ↦ inr e
    ]
    perform-Keeps (cut cnt) m v u = elim (truncate-take m cnt v) [
      | inl (h, (m', e, v', b, l)) ↦ inl (m', e, v', b)
      | inr (why, e) ↦ inr e
    ]
    perform-Keeps (chain_other other) m v u = elim (chain-Joins max_segs few m other v u) [
      | inl (one, fits, (m', e, v', b, n)) ↦ inl (m', e, v', b)
      | inr (why, e) ↦ inr e
    ]
    perform-Keeps (append_other other) m v u = elim (append_seg-Joins max_segs few m other v u) [
      | inl (one, fits, (m', e, v', b, n)) ↦ inl (m', e, v', b)
      | inr (why, e) ↦ inr e
    ]

    -- For `max_segs` below 2 ^ 16: a sequence of calls on a well-formed buffer, with well-formed buffers as
    -- arguments, panics, or its result is a well-formed buffer with the bytes that the calls make of the
    -- bytes of the first.
    pub perform_all-Keeps :
        (cs : List Call) (m : Mbuf)
        → IsMbuf m
        → AreSound cs
        → ((m' : Mbuf) × (perform_all cs m ≡ ok m') × IsMbuf m' × (bytes m' ≡ effects cs (bytes m)))
          ⊎ (perform_all cs m ≡ panic)
    unfolding perform_all
    perform_all-Keeps [] m v u = inl (m, refl, v, refl)
    perform_all-Keeps (c ∷ cs) m v u = elim (perform-Keeps c m v u.0) [
      | inl (m1, e, v1, b) ↦ elim (perform_all-Keeps cs m1 v1 u.1) [
        | inl (m2, e', v2, b') ↦ inl (m2, rw e e', v2, b' ∙ ap (effects cs) b)
        | inr e' ↦ inr (rw e e')
      ]
      | inr e ↦ inr (rw e)
    ]

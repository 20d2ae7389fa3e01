-- ===== src/Packet/Checksum.antt =====
-- The checksum over a packet's bytes, as each `calc_checksum` takes it: from_buf over `&mut self.buf`
-- and `move_back` over the bytes that it passed.
use rpkt.Base.{ℕ, ◌+◌, ◌-◌, ◌≤◌, ◌^◌, List, [], ◌++◌, length, take, drop, Outcome, ok, ◌>>=◌, All}
use rpkt.Base.{◌≡◌, refl, sym, ap, ap₂, ◌∙◌, arith, append-nil, append_assoc, take-append-drop}
use rpkt.Base.{
  length-append, length-take, length-drop, take-append_le, take_prefix, drop_prefix, drop-append_le,
}
use rpkt.Extern.{ByteOrder, IsBuf, Take, IsByte}
use rpkt.Traits.{PktBuf, PktMut, IsPktMut}
use rpkt.Packet.Laws.{Holds}
use rpkt.Checksum.{from_buf}
use rpkt.Checksum.Spec.{fold, word_sum}
use rpkt.Checksum.Segments.{from_buf-fold}

module _ (net : ByteOrder) (P : PktBuf) (T : Take P.buf) where
  -- With the checksum, the buffer behind the call.
  unfoldable pub sum_over : ℕ → P.Buffer → Outcome (ℕ × P.Buffer)
  sum_over total_len buf = do
    (result, advanced) ← from_buf net P.buf T buf total_len
    moved ← P.move_back advanced total_len
    ok (result, moved)

-- A buffer that keeps the contract of `PktMut` keeps that of `Buf`; `whole` are the bytes on both
-- sides of its position.
abbrev pub pkt_mut-IsBuf : (P : PktMut) → IsPktMut P → List ℕ → IsBuf P.pkt_buf.buf
pkt_mut-IsBuf P L whole = record {
  IsSound = λ b. L.IsSound b × (L.front b ++ L.body b ≡ whole);
  bytes = L.body;
  tail = λ b. [];
  remaining_lem = λ b s. L.remaining_lem b s.0;
  chunk-append-tail = λ b s. append-nil (P.chunk b) ∙ L.chunk_lem b s.0;
  chunk-ne-nil = λ b s ne e. ne (sym (L.chunk_lem b s.0) ∙ e);
  advance_ok = λ b cnt s h.
      let (b', e, s', fr, bo) = L.advance_ok b cnt s.0 h in
      (
        b',
        e,
        (
          s',
          ap₂ (λ xs ys. xs ++ ys) fr bo
              ∙ append_assoc (L.front b) (take cnt (L.body b)) (drop cnt (L.body b))
              ∙ ap (λ ys. L.front b ++ ys) (take-append-drop cnt (L.body b))
              ∙ s.1,
        ),
        bo,
      );
}

-- Two ways to cut the same bytes, the second cut at `f`.
recut :
    (xs ys f y : List ℕ) (n : ℕ)
    → xs ++ ys ≡ f ++ y
    → length xs ≡ length f + n
    → (take (length xs - n) xs ≡ f) × (drop (length xs - n) xs ++ ys ≡ y)
recut xs ys f y n e k =
    let m : ℕ = length f in
    let front : length xs - n ≡ m = omega arith in
    (
      ap (λ i. take i xs) front
          ∙ sym (take-append_le m xs ys (omega arith))
          ∙ ap (take m) e
          ∙ take_prefix m f y refl,
      ap (λ i. drop i xs ++ ys) front
          ∙ sym (drop-append_le m xs ys (omega arith))
          ∙ ap (drop m) e
          ∙ drop_prefix m f y refl,
    )

module _ (net : ByteOrder) (P : PktMut) (L : IsPktMut P) (T : Take P.pkt_buf.buf) where
  -- The checksum of the first `n` bytes; the buffer holds the same bytes as before.
  pub sum_over-Holds :
      (b : P.Buffer) (f y : List ℕ) (n : ℕ)
      → Holds P L b f y
      → n ≤ length y
      → n ≤ 2 ^ 17
      → All IsByte (take n y)
      → (c : P.Buffer) × (sum_over net P.pkt_buf T n b ≡ ok (fold (word_sum (take n y)), c))
        × Holds P L c f y
  unfolding sum_over
  sum_over-Holds b f y n at h k bytes =
      let law : IsBuf P.pkt_buf.buf = pkt_mut-IsBuf P L (f ++ y) in
      let same : take n (L.body b) ≡ take n y = ap (take n) at.2 in
      let (a, e, s, left) =
        from_buf-fold net P.pkt_buf.buf T law b n (at.0, ap₂ (λ xs ys. xs ++ ys) at.1 at.2)
          (rw same bytes) (rw same (omega (arith, length-take n y))) in
      let left' : L.body a ≡ drop n y = left ∙ ap (drop n) at.2 in
      let whole : L.front a ++ L.body a ≡ f ++ y = s.1 in
      let size : length (L.front a) ≡ length f + n = omega (
        arith,
        ap length whole,
        length-append (L.front a) (L.body a),
        length-append f y,
        ap length left',
        length-drop n y,
      ) in
      let (fr, bo) = recut (L.front a) (L.body a) f y n whole size in
      let (c, e', s', fr', bo') = L.move_back_ok a n s.0 (omega arith) in
      (c, rw (e, e') (ap (λ bs. ok (fold (word_sum bs), c)) same), (s', fr' ∙ fr, bo' ∙ bo))

-- ===== src/Checksum/Taken.antt =====
-- `bytes::buf::Take` over a buffer that keeps the contract of `bytes::Buf` keeps it too.
use rpkt.Base.{ℕ, ◌+◌, ◌-◌, ◌≤◌, ◌<◌, leb, leb→le, leb-false, Bool-cases, inl, inr}
use rpkt.Base.{List, [], ◌++◌, length, take, drop, ok, ◌≡◌, ◌≢◌, sym, ap, ap₂, ◌∙◌, arith}
use rpkt.Base.{
  min, subst, length-take, take-append, take-append-drop, drop-drop, drop-take, length-ne-nil,
}
use rpkt.Extern.{Buf, IsBuf, Take}

module _ (B : Buf) (T : Take B) (law : IsBuf B) where
  abbrev pub taken_bytes : T.buf.Buffer → List ℕ
  taken_bytes t = take (T.limit t) (law.bytes (T.into_inner t))

  -- Behind the limit, the buffer inside holds the bytes `rest`.
  abbrev pub IsTaken : List ℕ → T.buf.Buffer → Type 0
  IsTaken rest t =
      law.IsSound (T.into_inner t) × (drop (T.limit t) (law.bytes (T.into_inner t)) ≡ rest)

  pub remaining-taken :
      (t : T.buf.Buffer) → law.IsSound (T.into_inner t) → T.buf.remaining t ≡ length (taken_bytes t)
  remaining-taken t s =
      let b : B.Buffer = T.into_inner t in
      T.remaining_lem t ∙ elim (Bool-cases (leb (B.remaining b) (T.limit t))) [
        | inl all ↦ rw all (
            omega (
              arith,
              law.remaining_lem b s,
              leb→le (B.remaining b) (T.limit t) all,
              length-take (T.limit t) (law.bytes b),
            ))
        | inr more ↦ rw more (
            omega (
              arith,
              law.remaining_lem b s,
              leb-false (B.remaining b) (T.limit t) more,
              length-take (T.limit t) (law.bytes b),
            ))
      ]

  abbrev pub taken_tail : T.buf.Buffer → List ℕ
  taken_tail t = take (T.limit t - length (B.chunk (T.into_inner t))) (law.tail (T.into_inner t))

  pub chunk-append-taken_tail :
      (t : T.buf.Buffer)
      → law.IsSound (T.into_inner t)
      → T.buf.chunk t ++ taken_tail t ≡ taken_bytes t
  chunk-append-taken_tail t s =
      let b : B.Buffer = T.into_inner t in
      ap (λ c. c ++ taken_tail t) (T.chunk_lem t)
      ∙ sym (take-append (T.limit t) (B.chunk b) (law.tail b))
      ∙ ap (take (T.limit t)) (law.chunk-append-tail b s)

  pub chunk-ne-nil_taken :
      (t : T.buf.Buffer) → law.IsSound (T.into_inner t) → taken_bytes t ≢ [] → T.buf.chunk t ≢ []
  chunk-ne-nil_taken t s ne e =
      let b : B.Buffer = T.into_inner t in
      let some_bytes : 0 < length (taken_bytes t) = length-ne-nil ne in
      let size : length (taken_bytes t) ≡ min (T.limit t) (length (law.bytes b)) =
        length-take (T.limit t) (law.bytes b) in
      let some_chunk : 0 < length (B.chunk b) =
        length-ne-nil (law.chunk-ne-nil b s (λ z. omega (arith, ap length z))) in
      omega (arith, ap length (sym (T.chunk_lem t) ∙ e), length-take (T.limit t) (B.chunk b))

  pub advance-IsTaken :
      (rest : List ℕ) (t : T.buf.Buffer) (cnt : ℕ)
      → IsTaken rest t
      → cnt ≤ length (taken_bytes t)
      → (t' : T.buf.Buffer) × (T.buf.advance t cnt ≡ ok t')
        × IsTaken rest t'
        × (taken_bytes t' ≡ drop cnt (taken_bytes t))
  advance-IsTaken rest t cnt (s, behind) h =
      let b : B.Buffer = T.into_inner t in
      let size : length (taken_bytes t) ≡ min (T.limit t) (length (law.bytes b)) =
        length-take (T.limit t) (law.bytes b) in
      let (b', e, s', left) = law.advance_ok b cnt s (omega arith) in
      let (t', e', inner, lim) = T.advance_ok t cnt b' (omega arith) e in
      let left' : law.bytes (T.into_inner t') ≡ drop cnt (law.bytes b) =
        ap law.bytes inner ∙ left in
      let lim' : cnt + T.limit t' ≡ T.limit t = omega arith in
      (
        t',
        e',
        (
          subst law.IsSound (sym inner) s',
          ap (drop (T.limit t')) left'
              ∙ drop-drop cnt (T.limit t') (law.bytes b)
              ∙ ap (λ n. drop n (law.bytes b)) lim'
              ∙ behind,
        ),
        ap (take (T.limit t')) left'
            ∙ sym (drop-take cnt (T.limit t') (law.bytes b))
            ∙ ap (λ n. drop cnt (take n (law.bytes b))) lim',
      )

  abbrev pub taken-IsBuf : List ℕ → IsBuf T.buf
  taken-IsBuf rest = record {
    IsSound = IsTaken rest;
    bytes = taken_bytes;
    tail = taken_tail;
    remaining_lem = λ t s. remaining-taken t s.0;
    chunk-append-tail = λ t s. chunk-append-taken_tail t s.0;
    chunk-ne-nil = λ t s. chunk-ne-nil_taken t s.0;
    advance_ok = advance-IsTaken rest;
  }

  pub take_buf-IsTaken :
      (b : B.Buffer) (n : ℕ) → law.IsSound b → IsTaken (drop n (law.bytes b)) (T.take_buf b n)
  take_buf-IsTaken b n s = (
    subst law.IsSound (sym (T.into_inner-take_buf b n)) s,
    ap₂ (λ k c. drop k (law.bytes c)) (T.limit-take_buf b n) (T.into_inner-take_buf b n),
  )

  pub taken_bytes-take_buf :
      (b : B.Buffer) (n : ℕ) → taken_bytes (T.take_buf b n) ≡ take n (law.bytes b)
  taken_bytes-take_buf b n =
      ap₂ (λ k c. take k (law.bytes c)) (T.limit-take_buf b n) (T.into_inner-take_buf b n)

  -- At the end, the buffer inside holds the bytes behind the limit.
  pub bytes-into_inner :
      (rest : List ℕ) (t : T.buf.Buffer)
      → IsTaken rest t
      → taken_bytes t ≡ []
      → law.bytes (T.into_inner t) ≡ rest
  bytes-into_inner rest t (s, behind) e =
      let bs : List ℕ = law.bytes (T.into_inner t) in
      sym (take-append-drop (T.limit t) bs) ∙ ap₂ (λ xs ys. xs ++ ys) e behind

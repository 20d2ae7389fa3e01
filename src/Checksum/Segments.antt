-- ===== src/Checksum/Segments.antt =====
-- `from_buf`: the checksum does not depend on how the bytes are cut into pieces, also where a piece
-- ends inside a 16-bit word.
use rpkt.Base.{ℕ, zero, suc, ◌+◌, ◌*◌, ◌^◌, ◌≤◌, ◌<◌, ltb, ltb→lt, Bool-cases}
use rpkt.Base.{
  List, [], ◌∷◌, ◌++◌, length, All, take, drop, Option, none, some, ◌≡◌, ◌≢◌, refl, arith,
}
use rpkt.Base.{Outcome, ok, ◌>>=◌, true, false, inl, inr, sym, ap, ◌∙◌}
use rpkt.Base.{
  length-append, drop_prefix, append_assoc, append-nil, >>=_assoc, length-zero, length-ne-nil,
  ltb-false,
}
use rpkt.Extern.{ByteOrder, Buf, IsBuf, Take, IsByte, IsU32}
use rpkt.Checksum.{add_u32, add_odd, first, sum_pairs, sum_chunks, propagate_carries, from_slice}
use rpkt.Checksum.{join_tail, from_slice_with_tail_byte, buf_loop, from_taken, from_buf}
use rpkt.Checksum.Taken.{
  taken_bytes, taken-IsBuf, take_buf-IsTaken, taken_bytes-take_buf, bytes-into_inner,
}
use rpkt.Checksum.Spec.{word_sum, fold, pair_sum, odd_byte, word_sum-append}
use rpkt.Checksum.Spec.{propagate_carries-fold, word_sum-IsU32, word_sum-le-append}
use rpkt.Checksum.Slice.{sum_chunks-sum_pairs, sum_pairs_ok, from_slice-fold}

-- The tail byte, as a list of at most one byte.
abbrev carried : Option ℕ → List ℕ
carried none = []
carried (some byte) = byte ∷ []

carried-first : (data_ : List ℕ) → carried (first (odd_byte data_)) ≡ odd_byte data_
unfolding odd_byte
carried-first [] = refl
carried-first (a ∷ []) = refl
carried-first (a ∷ b ∷ rest) = carried-first rest

carried-last :
    (accum : ℕ) (tail_byte : Option ℕ)
    → IsU32 (accum + word_sum (carried tail_byte))
    → add_odd accum tail_byte ≡ accum + word_sum (carried tail_byte)
unfolding word_sum
carried-last accum none h = omega arith
carried-last accum (some byte) h = omega arith

abbrev with_tail : ℕ × List ℕ → Outcome (ℕ × Option ℕ)
with_tail d = ok (d.0, first d.1)

abbrev finish : {A : Type 0} → ℕ × Option ℕ × A → Outcome (ℕ × A)
finish s = ok (propagate_carries (add_odd s.0 s.1), s.2)

module _ (net : ByteOrder) where
  both_loops :
      (accum : ℕ) (data_ : List ℕ)
      → IsU32 (accum + word_sum data_)
      → (sum_chunks net (suc (length data_)) accum data_ >>= λ d.
          sum_pairs net d.0 d.1 >>= with_tail)
        ≡ ok (accum + pair_sum data_, first (odd_byte data_))
  both_loops accum data_ h =
      sym (
        >>=_assoc (sum_chunks net (suc (length data_)) accum data_) (λ d. sum_pairs net d.0 d.1)
          with_tail)
      ∙ rw (
        sum_chunks-sum_pairs net (suc (length data_)) accum data_ (omega arith),
        sum_pairs_ok net accum data_ h,
      )

  -- One piece, with the byte carried over from the piece before it.
  from_slice_with_tail_byte_ok :
      (data_ : List ℕ) (accum : ℕ) (tail_byte : Option ℕ)
      → data_ ≢ []
      → IsU32 (accum + word_sum (carried tail_byte ++ data_))
      → from_slice_with_tail_byte net data_ accum tail_byte
        ≡ ok (
          accum + pair_sum (carried tail_byte ++ data_),
          first (odd_byte (carried tail_byte ++ data_)),
        )
  unfolding from_slice_with_tail_byte join_tail
  from_slice_with_tail_byte_ok data_ accum none ne h = both_loops accum data_ h
  from_slice_with_tail_byte_ok [] accum (some t) ne h = absurd (ne refl)
  from_slice_with_tail_byte_ok (x ∷ rest) accum (some t) ne h =
      let word : ℕ = t * 256 + x in
      let e : add_u32 accum word ≡ accum + word = unfold word_sum in omega arith in
      let fits : IsU32 (accum + word + word_sum rest) = unfold word_sum in omega arith in
      let total : accum + pair_sum (t ∷ x ∷ rest) ≡ accum + word + pair_sum rest =
        unfold pair_sum in omega arith in
      rw (net.read_u16_ok t x [], e, total) (unfold odd_byte in both_loops (accum + word) rest fits)

  module _ (T : Buf) (law : IsBuf T) where
    open law use {IsSound, bytes, tail}

    -- One round of the loop.
    buf_loop-step :
        (fuel accum : ℕ) (buf rest : T.Buffer) (tail_byte : Option ℕ) (s : ℕ × Option ℕ)
        → ltb 0 (T.remaining buf) ≡ true
        → from_slice_with_tail_byte net (T.chunk buf) accum tail_byte ≡ ok s
        → T.advance buf (length (T.chunk buf)) ≡ ok rest
        → buf_loop net T (suc fuel) buf accum tail_byte ≡ buf_loop net T fuel rest s.0 s.1
    unfolding buf_loop
    buf_loop-step fuel accum buf rest tail_byte s more e f = rw (more, buf_loop) (rw (e, f))

    buf_loop-done :
        (fuel accum : ℕ) (buf : T.Buffer) (tail_byte : Option ℕ)
        → ltb 0 (T.remaining buf) ≡ false
        → buf_loop net T (suc fuel) buf accum tail_byte ≡ ok (accum, tail_byte, buf)
    unfolding buf_loop
    buf_loop-done fuel accum buf tail_byte done = rw (done, buf_loop)

    buf_loop-fold :
        (fuel : ℕ) (buf : T.Buffer) (accum : ℕ) (tail_byte : Option ℕ)
        → IsSound buf
        → length (bytes buf) < fuel
        → IsU32 (accum + word_sum (carried tail_byte ++ bytes buf))
        → (left : T.Buffer) × ((buf_loop net T fuel buf accum tail_byte >>= finish)
            ≡ ok (fold (accum + word_sum (carried tail_byte ++ bytes buf)), left))
          × IsSound left
          × (bytes left ≡ [])
    buf_loop-fold zero buf accum tail_byte sound h fits = absurd (omega arith)
    buf_loop-fold (suc fuel) buf accum tail_byte sound h fits =
        elim (Bool-cases (ltb 0 (T.remaining buf))) [
          | inl more ↦
              let piece : List ℕ = T.chunk buf in
              let front : List ℕ = carried tail_byte ++ piece in
              let whole : front ++ tail buf ≡ carried tail_byte ++ bytes buf =
                append_assoc (carried tail_byte) piece (tail buf)
                ∙ ap (λ t. carried tail_byte ++ t) (law.chunk-append-tail buf sound) in
              let length_whole : length piece + length (tail buf) ≡ length (bytes buf) = omega (
                arith,
                length-append piece (tail buf),
                ap length (law.chunk-append-tail buf sound),
              ) in
              let some_left : 0 < length (bytes buf) =
                omega (arith, law.remaining_lem buf sound, ltb→lt 0 (T.remaining buf) more) in
              let ne : piece ≢ [] = law.chunk-ne-nil buf sound (λ e. omega (arith, ap length e)) in
              let fits_front : IsU32 (accum + word_sum front) =
                omega (arith, word_sum-le-append front (tail buf), ap word_sum whole) in
              let (rest, advanced, sound', left) =
                law.advance_ok buf (length piece) sound (omega arith) in
              let left_tail : bytes rest ≡ tail buf =
                left
                ∙ rw (← law.chunk-append-tail buf sound)
                    (drop_prefix (length piece) piece (tail buf) refl) in
              let accum' : ℕ = accum + pair_sum front in
              let total : accum' + word_sum (carried (first (odd_byte front)) ++ bytes rest)
                  ≡ accum + word_sum (carried tail_byte ++ bytes buf) =
                rw (carried-first front, left_tail)
                  (omega (arith, word_sum-append front (tail buf), ap word_sum whole)) in
              let (end, e, s', nothing) =
                buf_loop-fold fuel rest accum' (first (odd_byte front)) sound'
                  (omega (arith, ap length left_tail, length-ne-nil ne)) (rw total fits) in
              (
                end,
                ap (λ o. o >>= finish)
                      (buf_loop-step fuel accum buf rest tail_byte (accum', first (odd_byte front))
                        more (from_slice_with_tail_byte_ok piece accum tail_byte ne fits_front)
                        advanced)
                    ∙ e
                    ∙ ap (λ n. ok (fold n, end)) total,
                s',
                nothing,
              )
          | inr done ↦
              let empty : bytes buf ≡ [] =
                length-zero _ (
                  omega (arith, law.remaining_lem buf sound, ltb-false 0 (T.remaining buf) done)) in
              let fits' : IsU32 (accum + word_sum (carried tail_byte)) =
                rw (empty, append-nil) at fits in
              (
                buf,
                rw
                    (
                      buf_loop-done fuel accum buf tail_byte done,
                      empty,
                      append-nil,
                      carried-last accum tail_byte fits',
                    )
                    (ap (λ n. ok (n, buf)) (propagate_carries-fold _ fits')),
                sound,
                empty,
              )
        ]

    -- What `from_buf` computes from `Take<T>`, however the bytes are cut into pieces.
    from_taken-fold :
        (buf : T.Buffer)
        → IsSound buf
        → All IsByte (bytes buf)
        → length (bytes buf) ≤ 2 ^ 17
        → (left : T.Buffer) × (from_taken net T buf ≡ ok (fold (word_sum (bytes buf)), left))
          × IsSound left
          × (bytes left ≡ [])
    unfolding from_taken
    from_taken-fold buf sound h k =
        let e : 0 + word_sum (bytes buf) ≡ word_sum (bytes buf) = omega arith in
        let (left, e', s, empty) =
          buf_loop-fold (suc (T.remaining buf)) buf 0 none sound
            (omega (arith, law.remaining_lem buf sound))
            (omega (arith, word_sum-IsU32 (bytes buf) h k)) in
        (left, e' ∙ ap (λ n. ok (fold n, left)) e, s, empty)

module _ (net : ByteOrder) (B : Buf) (T : Take B) (law : IsBuf B) (buf : B.Buffer) (len : ℕ)
    (sound : law.IsSound buf) (h : All IsByte (take len (law.bytes buf)))
    (k : length (take len (law.bytes buf)) ≤ 2 ^ 17) where
  pub from_buf-fold :
      (left : B.Buffer) × (from_buf net B T buf len
        ≡ ok (fold (word_sum (take len (law.bytes buf))), left))
      × law.IsSound left
      × (law.bytes left ≡ drop len (law.bytes buf))
  unfolding from_buf
  from_buf-fold =
      let behind : List ℕ = drop len (law.bytes buf) in
      let e : taken_bytes B T law (T.take_buf buf len) ≡ take len (law.bytes buf) =
        taken_bytes-take_buf B T law buf len in
      let (t, e', s, empty) =
        from_taken-fold net T.buf (taken-IsBuf B T law behind) (T.take_buf buf len)
          (take_buf-IsTaken B T law buf len sound) (rw e h) (rw e k) in
      (
        T.into_inner t,
        rw e' (ap (λ bs. ok (fold (word_sum bs), T.into_inner t)) e),
        s.0,
        bytes-into_inner B T law behind t s empty,
      )

  -- `from_buf` over pieces is `from_slice` over the first `len` bytes, and leaves the buffer behind
  -- them: on a sound buffer that keeps the contract of `Buf`, for up to 2 ^ 17 bytes, and for an
  -- adaptor `T` that limits the buffer as `bytes::Buf::take` does.
  pub from_buf-from_slice :
      (checksum : ℕ) × (left : B.Buffer) × (from_slice net (take len (law.bytes buf)) ≡ ok checksum)
      × (from_buf net B T buf len ≡ ok (checksum, left))
      × law.IsSound left
      × (law.bytes left ≡ drop len (law.bytes buf))
  from_buf-from_slice =
      let (left, e, s, behind) = from_buf-fold in
      (
        fold (word_sum (take len (law.bytes buf))),
        left,
        from_slice-fold net (take len (law.bytes buf)) h k,
        e,
        s,
        behind,
      )

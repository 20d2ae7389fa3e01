-- ===== src/Ipv4/Options/Pointer.antt =====
-- The pointer of a timestamp, which `Ipv4OptionIter` compares with 41 and not with the option's length.
use rpkt.Base.{
  ℕ, ◌+◌, ◌-◌, ◌<◌, ◌≤◌, true, List, [], ◌∷◌, some, ok, panic, ◌>>=◌, length, ◌≡◌, arith, ap, ◌∙◌,
  subst, append-nil, le→ltb,
}
use rpkt.Wire.{slice, slice_to}
use rpkt.Wire.Laws.{byte_at_ok, slice_panics}
use rpkt.Ipv4.Options.{
  ts, found, from_option_bytes, next, read_option, read_long, read_ts, ts_len_valid,
  ts_pointer_valid,
}
use rpkt.Ipv4.Options.RoundTrip.{next-read_option, prefix_found}
use rpkt.Ipv4.Options.Fields.{readable}

-- A timestamp of a length that the reader takes, with a pointer that it takes and that stands behind the
-- byte after the option: `next` gives the option, and `readable` of it panics.
pub readable-next :
    (len pointer : ℕ) (data_ : List ℕ)
    → ts_len_valid len ≡ true
    → ts_pointer_valid pointer ≡ true
    → length data_ ≡ len - 3
    → len + 1 < pointer
    → (next (from_option_bytes (68 ∷ len ∷ pointer ∷ data_))
        ≡ ok (some (ts (68 ∷ len ∷ pointer ∷ data_)), from_option_bytes []))
      × (readable 4 (68 ∷ len ∷ pointer ∷ data_) ≡ panic)
unfolding read_option read_long read_ts readable
readable-next len pointer data_ u v size beyond =
    let buf : List ℕ = 68 ∷ len ∷ pointer ∷ data_ in
    let h4 : 4 ≤ len = ground arith in
    let h41 : pointer ≤ 41 = ground arith in
    let full : length buf ≡ len = omega arith in
    (
      next-read_option 68 (len ∷ pointer ∷ data_)
          ∙ rw
              (
                le→ltb 2 (length buf) (omega arith),
                byte_at_ok buf 1 (omega arith),
                byte_at_ok buf 2 (omega arith),
                u,
                v,
                le→ltb len (length buf) (omega arith),
              )
              (subst
                (λ z.
                  (slice_to z len >>= λ bytes. found z len (ts bytes))
                  ≡ ok (some (ts buf), from_option_bytes []))
                (append-nil buf) (prefix_found buf [] len ts full)),
      rw (byte_at_ok buf 2 (omega arith)) (
          ap (λ (n : ℕ). slice buf 4 n) {y = pointer - 1} (omega arith)
          ∙ slice_panics buf 4 (pointer - 1) (omega arith)),
    )

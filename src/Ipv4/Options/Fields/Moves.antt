-- ===== src/Ipv4/Options/Fields/Moves.antt =====
-- `inc_readable_size` moves the border between the bytes that are readable and those that are writable.
use rpkt.Base.{
  ℕ, ◌+◌, ◌-◌, ◌≤◌, ◌<◌, leb, Bool-cases, le→leb, leb→le, leb-false, List, [], ◌∷◌, ◌++◌, ok, panic,
  length, take, drop, get_or, ◌≡◌, ◌⊎◌, inl, inr, arith, ap, ap₂, sym, ◌∙◌,
}
use rpkt.Base.{drop-drop, drop-take, take-take, length-drop, take-append-drop, take-all}
use rpkt.Wire.{slice, splice}
use rpkt.Wire.Laws.{slice_ok, byte_at_ok, set_byte_ok, length-splice, get_or-splice, drop-splice}
use rpkt.Ipv4.Options.Fields.{readable, remaining, writable, inc_readable_size}

-- An option whose length byte counts its bytes, and whose pointer stands in the data or just behind it.
pub record IsFilling (data_start : ℕ) (buf : List ℕ) : Type 0 where
  pub behind_head : 2 < data_start
  pub counted : get_or buf 1 0 ≡ length buf
  pub short : length buf < 255
  pub started : data_start < get_or buf 2 0
  pub within : get_or buf 2 0 ≤ length buf + 1

module _ (data_start : ℕ) (buf : List ℕ) (f : IsFilling data_start buf) where
  abbrev pointer : ℕ
  pointer = get_or buf 2 0

  readable_ok : readable data_start buf ≡ ok (take (pointer - 1 - data_start) (drop data_start buf))
  unfolding readable
  readable_ok = rw (byte_at_ok buf 2 (omega (arith, f.behind_head, f.started, f.within))) (
      ap (λ (n : ℕ). slice buf data_start n) (omega (arith, f.started, f.within, f.short))
      ∙ slice_ok buf data_start (pointer - 1) (omega (arith, f.started)) (omega (arith, f.within))
      ∙ ap (λ (n : ℕ). ok (take n (drop data_start buf))) (omega (arith, f.started)))

  writable_ok : writable buf ≡ ok (drop (pointer - 1) buf)
  unfolding writable
  writable_ok =
      rw
        (
          byte_at_ok buf 2 (omega (arith, f.behind_head, f.started, f.within)),
          byte_at_ok buf 1 (omega (arith, f.behind_head, f.started, f.within)),
        )
        (ap₂ (λ (a b : ℕ). slice buf a b) (omega (arith, f.started, f.within, f.short)) f.counted
          ∙ slice_ok buf (pointer - 1) (length buf) (omega (arith, f.within)) (omega arith)
          ∙ ap ok (
              take-all (length buf - (pointer - 1)) (drop (pointer - 1) buf)
                (omega (arith, length-drop (pointer - 1) buf))))

  remaining_ok : remaining buf ≡ ok (length buf + 1 - pointer)
  unfolding remaining
  remaining_ok =
      rw
        (
          byte_at_ok buf 2 (omega (arith, f.behind_head, f.started, f.within)),
          byte_at_ok buf 1 (omega (arith, f.behind_head, f.started, f.within)),
        )
        (ap ok (omega (arith, f.counted, f.within, f.short)))

  -- The option after `inc_readable_size`.
  abbrev moved : ℕ → List ℕ
  moved value = splice buf 2 ((pointer + value) ∷ [])

  length-moved : (value : ℕ) → length (moved value) ≡ length buf
  length-moved value =
      length-splice buf 2 ((pointer + value) ∷ [])
        (omega (arith, f.behind_head, f.started, f.within))

  cell_moved : (value : ℕ) → get_or (moved value) 2 0 ≡ pointer + value
  cell_moved value = ground (
    arith,
    get_or-splice buf 2 ((pointer + value) ∷ []) 2
        (omega (arith, f.behind_head, f.started, f.within)),
  )

  moved-IsFilling :
      (value : ℕ) → value ≤ length buf + 1 - pointer → IsFilling data_start (moved value)
  moved-IsFilling value h = record {
    behind_head = f.behind_head;
    counted = ground (
      arith,
      get_or-splice buf 2 ((pointer + value) ∷ []) 1
          (omega (arith, f.behind_head, f.started, f.within)),
      f.counted,
      length-moved value,
    );
    short = omega (arith, f.short, length-moved value);
    started = omega (arith, f.started, cell_moved value);
    within = omega (arith, f.within, length-moved value, cell_moved value);
  }

  inc_readable_size_ok :
      (value : ℕ)
      → value ≤ length buf + 1 - pointer
      → inc_readable_size buf value ≡ ok (moved value)
  unfolding inc_readable_size
  inc_readable_size_ok value h =
      rw
        (
          remaining_ok,
          le→leb value (length buf + 1 - pointer) h,
          byte_at_ok buf 2 (omega (arith, f.behind_head, f.started, f.within)),
        )
        (set_byte_ok buf 2 _ (omega (arith, f.behind_head, f.started, f.within))
          ∙ ap (λ (n : ℕ). ok (splice buf 2 (n ∷ []))) (omega (arith, f.within, f.short)))

  drop-moved : (value n : ℕ) → 2 < n → drop n (moved value) ≡ drop n buf
  drop-moved value n h =
      ap (λ (k : ℕ). drop k (moved value)) (omega arith)
      ∙ drop-splice buf 2 ((pointer + value) ∷ []) (n - 3)
          (omega (arith, f.behind_head, f.started, f.within))
      ∙ ap (λ (k : ℕ). drop k buf) (omega arith)

take_sum : (a b : ℕ) (xs : List ℕ) → take (a + b) xs ≡ take a xs ++ take b (drop a xs)
take_sum a b xs =
    sym (take-append-drop a (take (a + b) xs))
    ∙ ap₂ (λ (x y : List ℕ). x ++ y) (take-take a (a + b) xs (omega arith)) (drop-take a b xs)

-- For an option as `IsFilling` says, of fewer than 255 bytes: `readable` and `writable` are its data,
-- one behind the other. `inc_readable_size` of at
-- most as many bytes as are writable moves the first of these to the readable ones; of more, it panics.
pub readable-inc_readable_size :
    (data_start : ℕ) (buf : List ℕ) (value : ℕ)
    → IsFilling data_start buf
    → (r : List ℕ) × (w : List ℕ) × (readable data_start buf ≡ ok r)
      × (writable buf ≡ ok w)
      × (r ++ w ≡ drop data_start buf)
      × (((value ≤ length w)
            × ((buf' : List ℕ) × (inc_readable_size buf value ≡ ok buf')
                × IsFilling data_start buf'
                × (readable data_start buf' ≡ ok (r ++ take value w))
                × (writable buf' ≡ ok (drop value w))))
          ⊎ ((length w < value) × (inc_readable_size buf value ≡ panic)))
unfolding inc_readable_size
readable-inc_readable_size data_start buf value f =
    let p : ℕ = get_or buf 2 0 in
    let a : ℕ = p - 1 - data_start in
    let data_ : List ℕ = drop data_start buf in
    let whole : drop a data_ ≡ drop (p - 1) buf =
      drop-drop data_start a buf ∙ ap (λ (n : ℕ). drop n buf) (omega (arith, f.started)) in
    (
      take a data_,
      drop (p - 1) buf,
      readable_ok data_start buf f,
      writable_ok data_start buf f,
      ap (λ z. take a data_ ++ z) (sym whole) ∙ take-append-drop a data_,
      elim (Bool-cases (leb value (length buf + 1 - p))) [
        | inl fits ↦
            let h : value ≤ length buf + 1 - p = leb→le value (length buf + 1 - p) fits in
            let m : List ℕ = moved data_start buf f value in
            let g : IsFilling data_start m = moved-IsFilling data_start buf f value h in
            let cell : get_or m 2 0 ≡ p + value = cell_moved data_start buf f value in
            inl (
              omega (arith, length-drop (p - 1) buf, f.started, f.within),
              (
                m,
                inc_readable_size_ok data_start buf f value h,
                g,
                readable_ok data_start m g
                    ∙ ap₂ (λ (n : ℕ) (z : List ℕ). ok (take n z)) (omega (arith, f.started))
                        (drop-moved data_start buf f value data_start f.behind_head)
                    ∙ ap ok (take_sum a value data_ ∙ ap (λ z. take a data_ ++ take value z) whole),
                writable_ok data_start m g
                    ∙ ap ok (
                        drop-moved data_start buf f value (get_or m 2 0 - 1)
                          (omega (arith, f.started, f.behind_head))
                        ∙ ap (λ (n : ℕ). drop n buf) (omega (arith, f.started))
                        ∙ sym (drop-drop (p - 1) value buf)),
              ),
            )
        | inr beyond ↦ inr (
          omega (
            arith,
            length-drop (p - 1) buf,
            leb-false value (length buf + 1 - p) beyond,
            f.started,
            f.within,
          ),
          rw (remaining_ok data_start buf f, beyond),
        )
      ],
    )

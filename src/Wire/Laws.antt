-- ===== src/Wire/Laws.antt =====
-- What the slice operations do within bounds, byte by byte.
use rpkt.Base.{ℕ, zero, suc, ◌+◌, ◌-◌, ◌*◌, ◌/◌, ◌%◌, ◌^◌, ◌≤◌, ◌<◌, leb, ltb, if◌then◌else◌}
use rpkt.Base.{List, [], ◌∷◌, ◌++◌, ok, panic, length, take, drop, get_or, ◌≡◌}
use rpkt.Base.{
  refl, arith, le→leb, lt→leb, lt→ltb, length-append, length-take, length-drop, ◌&&◌, ap,
}
use native.Mathlib.Numerals.{add-one, add-two, add-three}
use rpkt.Base.{eq→==, take-all, ◌∙◌, sym, append_assoc, drop-drop, drop_prefix}
use rpkt.Extern.{ByteOrder}
use rpkt.Wire.{slice, splice, byte_at, set_byte, field_u16, set_field_u16, field_u32, set_field_u32}
use rpkt.Wire.{copy_from_slice, set_range, slice_from, slice_to}

pub slice_ok :
    (buf : List ℕ) (left right : ℕ)
    → left ≤ right
    → right ≤ length buf
    → slice buf left right ≡ ok (take (right - left) (drop left buf))
unfolding slice
slice_ok buf left right h k = rw (le→leb left right h, le→leb right (length buf) k)

pub length-splice :
    (buf : List ℕ) (left : ℕ) (bytes : List ℕ)
    → left + length bytes ≤ length buf
    → length (splice buf left bytes) ≡ length buf
unfolding splice
length-splice buf left bytes h = omega (
  arith,
  length-append (take left buf) (bytes ++ drop (left + length bytes) buf),
  length-append bytes (drop (left + length bytes) buf),
  length-take left buf,
  length-drop (left + length bytes) buf,
)

pub get_or-append :
    (xs ys : List ℕ) (j : ℕ)
    → get_or (xs ++ ys) j 0
      ≡ (if ltb j (length xs) then get_or xs j 0 else get_or ys (j - length xs) 0)
get_or-append [] ys j = ground arith
get_or-append (x ∷ xs) ys zero = ground arith
get_or-append (x ∷ xs) ys (suc j) = ground (arith, get_or-append xs ys j)

pub get_or-take : (n j : ℕ) (xs : List ℕ) → j < n → get_or (take n xs) j 0 ≡ get_or xs j 0
get_or-take zero j xs h = absurd (omega arith)
get_or-take (suc n) j [] h = refl
get_or-take (suc n) zero (x ∷ xs) h = refl
get_or-take (suc n) (suc j) (x ∷ xs) h = get_or-take n j xs (omega arith)

get_or-drop : (n j : ℕ) (xs : List ℕ) → get_or (drop n xs) j 0 ≡ get_or xs (n + j) 0
get_or-drop zero j xs = ap (λ k. get_or xs k 0) (omega arith)
get_or-drop (suc n) j [] = refl
get_or-drop (suc n) j (x ∷ xs) = ground (arith, get_or-drop n j xs)

-- The bytes of a buffer after a write: the new ones in the range, the old ones elsewhere.
pub get_or-splice :
    (buf : List ℕ) (left : ℕ) (bytes : List ℕ) (j : ℕ)
    → left + length bytes ≤ length buf
    → get_or (splice buf left bytes) j 0 ≡ (
        if leb left j && ltb j (left + length bytes)
        then get_or bytes (j - left) 0
        else get_or buf j 0)
unfolding splice
get_or-splice buf left bytes j h = ground (
  arith,
  length-take left buf,
  get_or-append (take left buf) (bytes ++ drop (left + length bytes) buf) j,
  get_or-append bytes (drop (left + length bytes) buf) (j - left),
  get_or-take left j buf,
  get_or-drop (left + length bytes) (j - left - length bytes) buf,
)

pub width : (left n : ℕ) → left + n - left ≡ n
width left n = omega arith

pub take-drop_cell :
    (n left : ℕ) (buf : List ℕ)
    → left < length buf
    → take (suc n) (drop left buf) ≡ get_or buf left 0 ∷ take n (drop (suc left) buf)
take-drop_cell n left [] h = absurd (omega arith)
take-drop_cell n zero (x ∷ buf) h = refl
take-drop_cell n (suc left) (x ∷ buf) h = take-drop_cell n left buf (omega arith)

two_cells :
    (buf : List ℕ) (left : ℕ)
    → left + 2 ≤ length buf
    → take 2 (drop left buf) ≡ get_or buf left 0 ∷ get_or buf (left + 1) 0 ∷ []
two_cells buf left h = rw (
  take-drop_cell 1 left buf (omega arith),
  take-drop_cell 0 (suc left) buf (omega arith),
  add-one left,
)

pub four_cells :
    (buf : List ℕ) (left : ℕ)
    → left + 4 ≤ length buf
    → take 4 (drop left buf)
      ≡ get_or buf left 0
        ∷ get_or buf (left + 1) 0
        ∷ get_or buf (left + 2) 0
        ∷ get_or buf (left + 3) 0
        ∷ []
four_cells buf left h = rw (
  take-drop_cell 3 left buf (omega arith),
  take-drop_cell 2 (suc left) buf (omega arith),
  take-drop_cell 1 (suc (suc left)) buf (omega arith),
  take-drop_cell 0 (suc (suc (suc left))) buf (omega arith),
  add-one left,
  add-two left,
  add-three left,
)

module _ (net : ByteOrder) where
  pub field_u16_ok :
      (left : ℕ) (buf : List ℕ)
      → left + 2 ≤ length buf
      → field_u16 net left (left + 2) buf ≡ ok (get_or buf left 0 * 256 + get_or buf (left + 1) 0)
  unfolding field_u16
  field_u16_ok left buf h =
      rw (slice_ok buf left (left + 2) (omega arith) h, width left 2, two_cells buf left h)
        (net.read_u16_ok _ _ [])

  pub set_field_u16_ok :
      (left : ℕ) (buf : List ℕ) (value : ℕ)
      → left + 2 ≤ length buf
      → set_field_u16 net left (left + 2) buf value
        ≡ ok (splice buf left (value / 256 % 256 ∷ value % 256 ∷ []))
  unfolding set_field_u16
  set_field_u16_ok left buf value h = rw (
    slice_ok buf left (left + 2) (omega arith) h,
    width left 2,
    two_cells buf left h,
    net.write_u16_ok (get_or buf left 0) (get_or buf (left + 1) 0) value [],
  )

  pub field_u32_ok :
      (left : ℕ) (buf : List ℕ)
      → left + 4 ≤ length buf
      → field_u32 net left (left + 4) buf
        ≡ ok (
            ((get_or buf left 0 * 256 + get_or buf (left + 1) 0) * 256 + get_or buf (left + 2) 0)
              * 256
            + get_or buf (left + 3) 0)
  unfolding field_u32
  field_u32_ok left buf h =
      rw (slice_ok buf left (left + 4) (omega arith) h, width left 4, four_cells buf left h)
        (net.read_u32_ok _ _ _ _ [])

  pub set_field_u32_ok :
      (left : ℕ) (buf : List ℕ) (value : ℕ)
      → left + 4 ≤ length buf
      → set_field_u32 net left (left + 4) buf value
        ≡ ok (
            splice buf left
              (value / 2 ^ 24 % 256 ∷ value / 2 ^ 16 % 256 ∷ value / 256 % 256 ∷ value % 256 ∷ []))
  unfolding set_field_u32
  set_field_u32_ok left buf value h = rw (
    slice_ok buf left (left + 4) (omega arith) h,
    width left 4,
    four_cells buf left h,
    net.write_u32_ok (get_or buf left 0) (get_or buf (left + 1) 0) (get_or buf (left + 2) 0)
        (get_or buf (left + 3) 0) value [],
  )

pub byte_at_ok :
    (buf : List ℕ) (val : ℕ) → val < length buf → byte_at buf val ≡ ok (get_or buf val 0)
unfolding byte_at
byte_at_ok buf val h = rw (lt→ltb val (length buf) h)

pub set_byte_ok :
    (buf : List ℕ) (val value : ℕ)
    → val < length buf
    → set_byte buf val value ≡ ok (splice buf val (value ∷ []))
unfolding set_byte
set_byte_ok buf val value h = rw (lt→ltb val (length buf) h)

pub copy_from_slice_ok :
    (dst src : List ℕ) → length dst ≡ length src → copy_from_slice dst src ≡ ok src
unfolding copy_from_slice
copy_from_slice_ok dst src e = rw (eq→== (length dst) (length src) e)

pub set_range_ok :
    (buf : List ℕ) (left right : ℕ) (src : List ℕ)
    → left + length src ≡ right
    → right ≤ length buf
    → set_range buf left right src ≡ ok (splice buf left src)
unfolding set_range copy_from_slice
set_range_ok buf left right src e h = rw (
  slice_ok buf left right (omega arith) h,
  eq→== (length (take (right - left) (drop left buf))) (length src)
      (omega (arith, length-take (right - left) (drop left buf), length-drop left buf)),
)

pub slice_from_ok :
    (buf : List ℕ) (left : ℕ) → left ≤ length buf → slice_from buf left ≡ ok (drop left buf)
unfolding slice_from
slice_from_ok buf left h =
    slice_ok buf left (length buf) h (omega arith)
    ∙ ap ok (take-all (length buf - left) (drop left buf) (omega (arith, length-drop left buf)))

pub slice_to_ok :
    (buf : List ℕ) (right : ℕ) → right ≤ length buf → slice_to buf right ≡ ok (take right buf)
unfolding slice_to
slice_to_ok buf right h =
    slice_ok buf 0 right (omega arith) h ∙ ap (λ (n : ℕ). ok (take n buf)) (omega arith)

pub slice_panics :
    (buf : List ℕ) (left right : ℕ) → length buf < right → slice buf left right ≡ panic
unfolding slice
slice_panics buf left right h = ground arith

pub slice_to_panics : (buf : List ℕ) (right : ℕ) → length buf < right → slice_to buf right ≡ panic
unfolding slice_to
slice_to_panics buf right h = slice_panics buf 0 right h

pub slice_backwards : (buf : List ℕ) (left right : ℕ) → right < left → slice buf left right ≡ panic
unfolding slice
slice_backwards buf left right h = rw (lt→leb left right h)

pub slice_from_panics : (buf : List ℕ) (left : ℕ) → length buf < left → slice_from buf left ≡ panic
unfolding slice_from
slice_from_panics buf left h = slice_backwards buf left (length buf) h

-- Beyond what was written the buffer is as it was.
pub drop-splice :
    (buf : List ℕ) (left : ℕ) (bytes : List ℕ) (m : ℕ)
    → left + length bytes ≤ length buf
    → drop (left + length bytes + m) (splice buf left bytes) ≡ drop (left + length bytes + m) buf
unfolding splice
drop-splice buf left bytes m h =
    let k : ℕ = left + length bytes in
    let front : List ℕ = take left buf ++ bytes in
    let size : length front ≡ k =
      omega (arith, length-append (take left buf) bytes, length-take left buf) in
    ap (drop (k + m)) (sym (append_assoc (take left buf) bytes (drop k buf)))
    ∙ sym (drop-drop k m (front ++ drop k buf))
    ∙ ap (drop m) (drop_prefix k front (drop k buf) size)
    ∙ drop-drop k m buf

-- ===== src/Wire/Fields.antt =====
-- Fields of a header: a write to one field is read back, and leaves the others alone.
use rpkt.Base.{ℕ, ◌+◌, ◌/◌, ◌%◌, ◌^◌, ◌≤◌, ◌<◌, List, [], ◌∷◌, ◌≡◌}
use rpkt.Base.{ok, length, get_or, ◌⊎◌, arith, ◌∙◌, sym, ap}
use rpkt.Extern.{ByteOrder, IsU16, IsU32}
use rpkt.Wire.{splice, byte_at, field_u16, field_u32}
use rpkt.Wire.Laws.{field_u16_ok, field_u32_ok, byte_at_ok, get_or-splice, length-splice}

-- The bytes of a 16-bit value on the wire.
abbrev pub wire_u16 : ℕ → List ℕ
wire_u16 v = v / 256 % 256 ∷ v % 256 ∷ []

abbrev pub wire_u32 : ℕ → List ℕ
wire_u32 v = v / 2 ^ 24 % 256 ∷ v / 2 ^ 16 % 256 ∷ v / 256 % 256 ∷ v % 256 ∷ []

-- The range of `n` bytes at `at` and the bytes written at `left` do not overlap.
abbrev pub Apart : ℕ → ℕ → ℕ → ℕ → Type 0
Apart at n left m = (at + n ≤ left) ⊎ (left + m ≤ at)

pub get_or-splice-Apart :
    (buf : List ℕ) (left : ℕ) (bytes : List ℕ) (j : ℕ)
    → left + length bytes ≤ length buf
    → Apart j 1 left (length bytes)
    → get_or (splice buf left bytes) j 0 ≡ get_or buf j 0
get_or-splice-Apart buf left bytes j h a = ground (arith, get_or-splice buf left bytes j h)

pub get_or-splice_in :
    (buf : List ℕ) (left : ℕ) (bytes : List ℕ) (i : ℕ)
    → left + length bytes ≤ length buf
    → i < length bytes
    → get_or (splice buf left bytes) (left + i) 0 ≡ get_or bytes i 0
get_or-splice_in buf left bytes i h k = ground (arith, get_or-splice buf left bytes (left + i) h)

pub byte_at-splice-Apart :
    (buf : List ℕ) (left : ℕ) (bytes : List ℕ) (at : ℕ)
    → left + length bytes ≤ length buf
    → at < length buf
    → Apart at 1 left (length bytes)
    → byte_at (splice buf left bytes) at ≡ byte_at buf at
byte_at-splice-Apart buf left bytes at h k a =
    byte_at_ok (splice buf left bytes) at (omega (arith, length-splice buf left bytes h))
    ∙ ap ok (get_or-splice-Apart buf left bytes at h a)
    ∙ sym (byte_at_ok buf at k)

pub byte_at-splice_self :
    (buf : List ℕ) (at value : ℕ)
    → at < length buf
    → byte_at (splice buf at (value ∷ [])) at ≡ ok value
byte_at-splice_self buf at value h =
    byte_at_ok (splice buf at (value ∷ [])) at
      (omega (arith, length-splice buf at (value ∷ []) (omega arith)))
    ∙ ap ok (ground (arith, get_or-splice buf at (value ∷ []) at (omega arith)))

module _ (net : ByteOrder) where
  pub field_u16-splice-Apart :
      (buf : List ℕ) (left : ℕ) (bytes : List ℕ) (at : ℕ)
      → left + length bytes ≤ length buf
      → at + 2 ≤ length buf
      → Apart at 2 left (length bytes)
      → field_u16 net at (at + 2) (splice buf left bytes) ≡ field_u16 net at (at + 2) buf
  field_u16-splice-Apart buf left bytes at h k a =
      field_u16_ok net at (splice buf left bytes) (omega (arith, length-splice buf left bytes h))
      ∙ ap ok (
          omega (
            arith,
            get_or-splice-Apart buf left bytes at h (ground arith),
            get_or-splice-Apart buf left bytes (at + 1) h (ground arith),
          ))
      ∙ sym (field_u16_ok net at buf k)

  pub field_u16-splice_self :
      (buf : List ℕ) (at value : ℕ)
      → at + 2 ≤ length buf
      → IsU16 value
      → field_u16 net at (at + 2) (splice buf at (wire_u16 value)) ≡ ok value
  field_u16-splice_self buf at value h u =
      field_u16_ok net at (splice buf at (wire_u16 value))
        (omega (arith, length-splice buf at (wire_u16 value) h))
      ∙ ap ok (
          ground (
            arith,
            get_or-splice buf at (wire_u16 value) at h,
            get_or-splice buf at (wire_u16 value) (at + 1) h,
          ))

  pub field_u32-splice-Apart :
      (buf : List ℕ) (left : ℕ) (bytes : List ℕ) (at : ℕ)
      → left + length bytes ≤ length buf
      → at + 4 ≤ length buf
      → Apart at 4 left (length bytes)
      → field_u32 net at (at + 4) (splice buf left bytes) ≡ field_u32 net at (at + 4) buf
  field_u32-splice-Apart buf left bytes at h k a =
      field_u32_ok net at (splice buf left bytes) (omega (arith, length-splice buf left bytes h))
      ∙ ap ok (
          omega (
            arith,
            get_or-splice-Apart buf left bytes at h (ground arith),
            get_or-splice-Apart buf left bytes (at + 1) h (ground arith),
            get_or-splice-Apart buf left bytes (at + 2) h (ground arith),
            get_or-splice-Apart buf left bytes (at + 3) h (ground arith),
          ))
      ∙ sym (field_u32_ok net at buf k)

  pub field_u32-splice_self :
      (buf : List ℕ) (at value : ℕ)
      → at + 4 ≤ length buf
      → IsU32 value
      → field_u32 net at (at + 4) (splice buf at (wire_u32 value)) ≡ ok value
  field_u32-splice_self buf at value h u =
      field_u32_ok net at (splice buf at (wire_u32 value))
        (omega (arith, length-splice buf at (wire_u32 value) h))
      ∙ ap ok (
          ground (
            arith,
            get_or-splice_in buf at (wire_u32 value) 0 h,
            get_or-splice_in buf at (wire_u32 value) 1 h,
            get_or-splice_in buf at (wire_u32 value) 2 h,
            get_or-splice_in buf at (wire_u32 value) 3 h,
          ))

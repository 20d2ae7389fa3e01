-- ===== src/Wire/Word24.antt =====
-- Fields of 24 bits.
use rpkt.Base.{ℕ, suc, ◌+◌, ◌*◌, ◌/◌, ◌%◌, ◌^◌, ◌≤◌, ◌<◌, List, [], ◌∷◌, ok, length, get_or}
use rpkt.Base.{take, drop, ◌≡◌, arith}
use native.Mathlib.Numerals.{add-one, add-two}
use rpkt.Extern.{ByteOrder}
use rpkt.Wire.{splice, field_u24, set_field_u24}
use rpkt.Wire.Laws.{slice_ok, width, take-drop_cell}

three_cells :
    (buf : List ℕ) (left : ℕ)
    → left + 3 ≤ length buf
    → take 3 (drop left buf)
      ≡ get_or buf left 0 ∷ get_or buf (left + 1) 0 ∷ get_or buf (left + 2) 0 ∷ []
three_cells buf left h = rw (
  take-drop_cell 2 left buf (omega arith),
  take-drop_cell 1 (suc left) buf (omega arith),
  take-drop_cell 0 (suc (suc left)) buf (omega arith),
  add-one left,
  add-two left,
)

-- The bytes of a 24-bit value on the wire.
abbrev pub wire_u24 : ℕ → List ℕ
wire_u24 v = v / 2 ^ 16 % 256 ∷ v / 256 % 256 ∷ v % 256 ∷ []

module _ (net : ByteOrder) (left : ℕ) (buf : List ℕ) (h : left + 3 ≤ length buf) where
  pub field_u24_ok :
      field_u24 net left (left + 3) buf
      ≡ ok ((get_or buf left 0 * 256 + get_or buf (left + 1) 0) * 256 + get_or buf (left + 2) 0)
  unfolding field_u24
  field_u24_ok =
      rw (slice_ok buf left (left + 3) (omega arith) h, width left 3, three_cells buf left h)
        (net.read_u24_ok _ _ _ [])

  pub set_field_u24_ok :
      (value : ℕ)
      → value < 2 ^ 24
      → set_field_u24 net left (left + 3) buf value ≡ ok (splice buf left (wire_u24 value))
  unfolding set_field_u24
  set_field_u24_ok value k = rw (
    slice_ok buf left (left + 3) (omega arith) h,
    width left 3,
    three_cells buf left h,
    net.write_u24_ok (get_or buf left 0) (get_or buf (left + 1) 0) (get_or buf (left + 2) 0) value
        [] k,
  )

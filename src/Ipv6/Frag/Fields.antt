-- ===== src/Ipv6/Frag/Fields.antt =====
-- The offset, the reserved bits and the flag share two bytes of the fragment header.
use rpkt.Base.{ℕ, ◌+◌, ◌*◌, ◌/◌, ◌%◌, ◌^◌, ◌≤◌, ◌<◌, ◌==◌, if◌then◌else◌, bit_and, bit_or}
use rpkt.Base.{Bool, true, false, List, [], ◌∷◌, ok, length, get_or, All, All-get_or}
use rpkt.Base.{◌≡◌, ◌≢◌, refl, arith}
use rpkt.Base.Bits.{bit_and_mask, bit_and_split, bit_or_low}
use rpkt.Extern.{ByteOrder, IsByte, IsU16}
use rpkt.Wire.{splice}
use rpkt.Wire.Laws.{set_byte_ok, field_u16_ok, set_field_u16_ok, length-splice, get_or-splice}
use rpkt.Wire.Fields.{wire_u16}
use rpkt.Ipv6.Frag.{frag_off, m_flag, adjust_reserved, set_frag_off, set_m_flag}

-- The 16-bit word that the three share.
abbrev pub word : List ℕ → ℕ
word y = get_or y 2 0 * 256 + get_or y 3 0

abbrev pub stated_off : List ℕ → ℕ
stated_off y = word y / 8

abbrev pub stated_reserved : List ℕ → ℕ
stated_reserved y = word y / 2 % 4

abbrev pub stated_flag : List ℕ → ℕ
stated_flag y = word y % 2

abbrev pub bit : Bool → ℕ
bit b = if b then 1 else 0

new_flag :
    (off : ℕ) (b : Bool) → (if b then bit_or (off * 2 ^ 3) 1 else off * 2 ^ 3) ≡ off * 2 ^ 3 + bit b
new_flag off true = bit_or_low 3 off 1 (omega arith)
new_flag off false = omega arith

bit-bound : (b : Bool) → bit b ≤ 1
bit-bound true = omega arith
bit-bound false = omega arith

new_reserved : (raw : ℕ) → IsU16 raw → bit_and raw 0xfff9 ≡ raw / 2 ^ 3 * 2 ^ 3 + raw % 2
new_reserved raw h = ground (
  arith,
  bit_and_split 3 (raw / 2 ^ 3) (raw % 2 ^ 3) 8191 1 (omega arith) (omega arith),
  bit_and_mask 13 (raw / 2 ^ 3),
  bit_and_mask 1 (raw % 2 ^ 3),
)

abbrev pub SameElsewhere : List ℕ → List ℕ → Type 0
SameElsewhere y z = (length z ≡ length y) × ((j : ℕ) → j ≢ 2 → j ≢ 3 → get_or z j 0 ≡ get_or y j 0)

module _ (net : ByteOrder) (y : List ℕ) (h : 8 ≤ length y) (bytes : All IsByte y) where
  b2 : IsByte (get_or y 2 0)
  b2 = All-get_or IsByte y 2 bytes (omega arith)

  b3 : IsByte (get_or y 3 0)
  b3 = All-get_or IsByte y 3 bytes (omega arith)

  -- On at least 8 bytes, `frag_off` and `m_flag` read what the bytes state.
  pub frag_getters : (frag_off net y ≡ ok (stated_off y)) × (m_flag net y ≡ ok (stated_flag y == 1))
  unfolding frag_off m_flag
  frag_getters = (
    rw (field_u16_ok net 2 y (omega arith)) refl,
    rw (field_u16_ok net 2 y (omega arith), bit_and_mask 1 (word y)) refl,
  )

  -- A word written over the two bytes.
  written :
      (n : ℕ)
      → IsU16 n
      → (word (splice y 2 (wire_u16 n)) ≡ n) × SameElsewhere y (splice y 2 (wire_u16 n))
  written n k =
      let at : (j : ℕ) → _ = λ j. get_or-splice y 2 (wire_u16 n) j (omega arith) in
      (
        ground (arith, at 2, at 3),
        (length-splice y 2 (wire_u16 n) (omega arith), λ j p q. ground (arith, at j)),
      )

  set_frag_off_Fields :
      (v : ℕ)
      → v < 2 ^ 13
      → (z : List ℕ) × (set_frag_off net y v ≡ ok z)
        × (stated_off z ≡ v)
        × (stated_reserved z ≡ 0)
        × (stated_flag z ≡ stated_flag y)
        × SameElsewhere y z
  unfolding set_frag_off
  set_frag_off_Fields v k =
      let n : ℕ = v * 2 ^ 3 + word y % 2 in
      let e : v * 2 ^ 3 % 2 ^ 16 ≡ v * 2 ^ 3 = omega arith in
      let (w, same) = written n (omega arith) in
      (
        splice y 2 (wire_u16 n),
        rw
            (
              field_u16_ok net 2 y (omega arith),
              bit_and_mask 1 (word y),
              e,
              bit_or_low 3 v (word y % 2) (omega arith),
            )
            (set_field_u16_ok net 2 y n (omega arith)),
        omega arith,
        omega arith,
        omega arith,
        same,
      )

  set_m_flag_Fields :
      (flag : Bool)
      → (z : List ℕ) × (set_m_flag net y flag ≡ ok z)
        × (stated_off z ≡ stated_off y)
        × (stated_reserved z ≡ 0)
        × (stated_flag z ≡ bit flag)
        × SameElsewhere y z
  unfolding set_m_flag
  set_m_flag_Fields flag =
      let n : ℕ = word y / 2 ^ 3 * 2 ^ 3 + bit flag in
      let e : word y / 2 ^ 3 * 2 ^ 3 % 2 ^ 16 ≡ word y / 2 ^ 3 * 2 ^ 3 = omega (arith, b2, b3) in
      let (w, same) = written n (omega (arith, b2, b3, bit-bound flag)) in
      (
        splice y 2 (wire_u16 n),
        rw (field_u16_ok net 2 y (omega arith), e, new_flag (word y / 2 ^ 3) flag)
            (set_field_u16_ok net 2 y n (omega arith)),
        omega (arith, bit-bound flag),
        omega (arith, bit-bound flag),
        omega (arith, bit-bound flag),
        same,
      )

  adjust_reserved_Fields :
      (z : List ℕ) × (adjust_reserved net y ≡ ok z)
      × (stated_off z ≡ stated_off y)
      × (stated_reserved z ≡ 0)
      × (stated_flag z ≡ stated_flag y)
      × (get_or z 1 0 ≡ 0)
      × (length z ≡ length y)
      × ((j : ℕ) → j ≢ 1 → j ≢ 2 → j ≢ 3 → get_or z j 0 ≡ get_or y j 0)
  unfolding adjust_reserved
  adjust_reserved_Fields =
      let x : List ℕ = splice y 1 (0 ∷ []) in
      let size : length x ≡ length y = length-splice y 1 (0 ∷ []) (omega arith) in
      let at : (j : ℕ) → _ = λ j. get_or-splice y 1 (0 ∷ []) j (omega arith) in
      let same : word x ≡ word y = ground (arith, at 2, at 3) in
      let u : IsU16 (word x) = omega (arith, b2, b3) in
      let n : ℕ = word x / 2 ^ 3 * 2 ^ 3 + word x % 2 in
      let z : List ℕ = splice x 2 (wire_u16 n) in
      let at' : (j : ℕ) → _ = λ j. get_or-splice x 2 (wire_u16 n) j (omega arith) in
      let w : word z ≡ n = ground (arith, at' 2, at' 3) in
      (
        z,
        rw
            (
              set_byte_ok y 1 0 (omega arith),
              field_u16_ok net 2 x (omega arith),
              new_reserved (word x) u,
            )
            (set_field_u16_ok net 2 x n (omega arith)),
        omega arith,
        omega arith,
        omega arith,
        ground (arith, at 1, at' 1),
        omega (arith, length-splice x 2 (wire_u16 n) (omega arith)),
        λ j p q r. ground (arith, at j, at' j),
      )

  -- On at least 8 bytes, `set_frag_off` below 2 ^ 13 and `set_m_flag` return: each sets its own field,
  -- keeps the other, clears the two reserved bits, and changes no other byte. `adjust_reserved`
  -- returns: it keeps both fields, clears the reserved bits and byte 1, and changes nothing else.
  pub frag_setters :
      (v : ℕ) (flag : Bool)
      → v < 2 ^ 13
      → ((z : List ℕ) × (set_frag_off net y v ≡ ok z)
          × (stated_off z ≡ v)
          × (stated_reserved z ≡ 0)
          × (stated_flag z ≡ stated_flag y)
          × SameElsewhere y z)
        × ((z : List ℕ) × (set_m_flag net y flag ≡ ok z)
            × (stated_off z ≡ stated_off y)
            × (stated_reserved z ≡ 0)
            × (stated_flag z ≡ bit flag)
            × SameElsewhere y z)
        × ((z : List ℕ) × (adjust_reserved net y ≡ ok z)
            × (stated_off z ≡ stated_off y)
            × (stated_reserved z ≡ 0)
            × (stated_flag z ≡ stated_flag y)
            × (get_or z 1 0 ≡ 0)
            × (length z ≡ length y)
            × ((j : ℕ) → j ≢ 1 → j ≢ 2 → j ≢ 3 → get_or z j 0 ≡ get_or y j 0))
  frag_setters v flag k = (set_frag_off_Fields v k, set_m_flag_Fields flag, adjust_reserved_Fields)

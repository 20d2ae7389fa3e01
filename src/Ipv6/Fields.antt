-- ===== src/Ipv6/Fields.antt =====
-- The version, the traffic class and the flow label share the first four bytes of the IPv6 header.
use rpkt.Base.{ℕ, ◌+◌, ◌*◌, ◌/◌, ◌%◌, ◌^◌, ◌≤◌, ◌<◌, ◌==◌, le→leb, bit_and, bit_or}
use rpkt.Base.{List, [], ◌∷◌, ok, length, get_or, All, All-get_or, ◌≡◌, arith, ap}
use rpkt.Base.Bits.{bit_and_mask, bit_and_high, bit_or_low, bit_or_high}
use rpkt.Extern.{ByteOrder, IsByte}
use rpkt.Wire.{splice}
use rpkt.Wire.Laws.{byte_at_ok, set_byte_ok, length-splice, get_or-splice}
use rpkt.Wire.Word24.{wire_u24, field_u24_ok, set_field_u24_ok}
use rpkt.Ipv6.Header.{
  check_version, traffic_class, flow_label, adjust_version, set_traffic_class, set_flow_label,
}

-- What the first four bytes state.
abbrev pub stated_version : List ℕ → ℕ
stated_version y = get_or y 0 0 / 16

abbrev pub stated_class : List ℕ → ℕ
stated_class y = get_or y 0 0 % 16 * 16 + get_or y 1 0 / 16

abbrev pub stated_label : List ℕ → ℕ
stated_label y = (get_or y 1 0 % 16 * 256 + get_or y 2 0) * 256 + get_or y 3 0

abbrev pub SameBehind : List ℕ → List ℕ → Type 0
SameBehind y z = (length z ≡ length y) × ((j : ℕ) → 4 ≤ j → get_or z j 0 ≡ get_or y j 0)

new_version : (b : ℕ) → bit_or (bit_and b 0x0f) 96 ≡ 96 + b % 16
new_version b = rw (bit_and_mask 4 b) (bit_or_high 4 6 (b % 16) (omega arith))

new_high : (b v : ℕ) → v < 256 → bit_or (bit_and b 0xf0) (v / 16) ≡ b / 16 % 16 * 16 + v / 16
new_high b v h =
    rw (bit_and_high 4 15 b, bit_and_mask 4 (b / 16))
      (bit_or_low 4 (b / 16 % 16) (v / 16) (omega arith))

new_low : (b v : ℕ) → bit_or (bit_and b 0x0f) (v * 16 % 256) ≡ v % 16 * 16 + b % 16
new_low b v =
    let e : v * 16 % 256 ≡ v % 16 * 2 ^ 4 = omega arith in
    rw (bit_and_mask 4 b, e) (bit_or_high 4 (v % 16) (b % 16) (omega arith))

new_label :
    (data_ w : ℕ)
    → w < 2 ^ 20
    → bit_or (bit_and data_ 0xf00000) w ≡ data_ / 2 ^ 20 % 16 * 2 ^ 20 + w
new_label data_ w h =
    rw (bit_and_high 20 15 data_, bit_and_mask 4 (data_ / 2 ^ 20))
      (bit_or_low 20 (data_ / 2 ^ 20 % 16) w h)

module _ (net : ByteOrder) (y : List ℕ) (h : 40 ≤ length y) (bytes : All IsByte y) where
  b0 : IsByte (get_or y 0 0)
  b0 = All-get_or IsByte y 0 bytes (omega arith)

  b1 : IsByte (get_or y 1 0)
  b1 = All-get_or IsByte y 1 bytes (omega arith)

  b2 : IsByte (get_or y 2 0)
  b2 = All-get_or IsByte y 2 bytes (omega arith)

  b3 : IsByte (get_or y 3 0)
  b3 = All-get_or IsByte y 3 bytes (omega arith)

  -- On at least 40 bytes, the getters of the first word read what its bytes state.
  pub first_word_getters :
      (check_version y ≡ ok (stated_version y == 6))
      × (traffic_class y ≡ ok (stated_class y))
      × (flow_label net y ≡ ok (stated_label y))
  unfolding check_version traffic_class flow_label
  first_word_getters =
      let x : ℕ = get_or y 0 0 in
      let e : x * 2 ^ 4 % 2 ^ 8 ≡ x % 16 * 2 ^ 4 = omega arith in
      let data_ : ℕ = (get_or y 1 0 * 256 + get_or y 2 0) * 256 + get_or y 3 0 in
      (
        rw (byte_at_ok y 0 (omega arith)),
        rw (byte_at_ok y 0 (omega arith), byte_at_ok y 1 (omega arith), e)
            (ap ok (bit_or_low 4 (x % 16) (get_or y 1 0 / 16) (omega (arith, b1)))),
        rw (field_u24_ok net 1 y (omega arith), bit_and_mask 20 data_)
            (ap ok (omega (arith, b1, b2, b3))),
      )

  adjust_version_Fields :
      (z : List ℕ) × (adjust_version y ≡ ok z)
      × (stated_version z ≡ 6)
      × (stated_class z ≡ stated_class y)
      × (stated_label z ≡ stated_label y)
      × SameBehind y z
  unfolding adjust_version
  adjust_version_Fields =
      let cell : ℕ = 96 + get_or y 0 0 % 16 in
      let z : List ℕ = splice y 0 (cell ∷ []) in
      let at : (j : ℕ) → _ = λ j. get_or-splice y 0 (cell ∷ []) j (omega arith) in
      (
        z,
        rw (byte_at_ok y 0 (omega arith), new_version (get_or y 0 0))
            (set_byte_ok y 0 cell (omega arith)),
        ground (arith, at 0),
        ground (arith, at 0, at 1),
        ground (arith, at 1, at 2, at 3),
        (length-splice y 0 (cell ∷ []) (omega arith), λ j k. ground (arith, at j)),
      )

  set_traffic_class_Fields :
      (v : ℕ)
      → v < 256
      → (z : List ℕ) × (set_traffic_class y v ≡ ok z)
        × (stated_version z ≡ stated_version y)
        × (stated_class z ≡ v)
        × (stated_label z ≡ stated_label y)
        × SameBehind y z
  unfolding set_traffic_class
  set_traffic_class_Fields v k =
      let x : ℕ = get_or y 0 0 / 16 % 16 * 16 + v / 16 in
      let w : List ℕ = splice y 0 (x ∷ []) in
      let size : length w ≡ length y = length-splice y 0 (x ∷ []) (omega arith) in
      let second : ℕ = v % 16 * 16 + get_or w 1 0 % 16 in
      let z : List ℕ = splice w 1 (second ∷ []) in
      let at : (j : ℕ) → _ = λ j. get_or-splice y 0 (x ∷ []) j (omega arith) in
      let at' : (j : ℕ) → _ = λ j. get_or-splice w 1 (second ∷ []) j (omega arith) in
      (
        z,
        rw
            (
              byte_at_ok y 0 (omega arith),
              new_high (get_or y 0 0) v k,
              set_byte_ok y 0 x (omega arith),
              byte_at_ok w 1 (omega arith),
              new_low (get_or w 1 0) v,
            )
            (set_byte_ok w 1 second (omega arith)),
        ground (arith, at 0, at' 0, b0),
        ground (arith, at 0, at 1, at' 0, at' 1, b0),
        ground (arith, at 1, at 2, at 3, at' 1, at' 2, at' 3),
        (
          omega (arith, length-splice w 1 (second ∷ []) (omega arith)),
          λ j m. ground (arith, at j, at' j),
        ),
      )

  set_flow_label_Fields :
      (v : ℕ)
      → v < 2 ^ 20
      → (z : List ℕ) × (set_flow_label net y v ≡ ok z)
        × (stated_version z ≡ stated_version y)
        × (stated_class z ≡ stated_class y)
        × (stated_label z ≡ v)
        × SameBehind y z
  unfolding set_flow_label
  set_flow_label_Fields v k =
      let data_ : ℕ = (get_or y 1 0 * 256 + get_or y 2 0) * 256 + get_or y 3 0 in
      let new : ℕ = data_ / 2 ^ 20 % 16 * 2 ^ 20 + v in
      let z : List ℕ = splice y 1 (wire_u24 new) in
      let at : (j : ℕ) → _ = λ j. get_or-splice y 1 (wire_u24 new) j (omega arith) in
      let high : data_ / 2 ^ 20 ≡ get_or y 1 0 / 16 = omega (arith, b2, b3) in
      (
        z,
        rw (le→leb v 0xfffff (omega arith), field_u24_ok net 1 y (omega arith), new_label data_ v k)
            (set_field_u24_ok net 1 y (omega arith) new (omega arith)),
        ground (arith, at 0),
        ground (arith, at 0, at 1, b1),
        ground (arith, at 1, at 2, at 3),
        (length-splice y 1 (wire_u24 new) (omega arith), λ j m. ground (arith, at j)),
      )

  -- On at least 40 bytes, each of `adjust_version`, `set_traffic_class` of a byte and
  -- `set_flow_label` below 2 ^ 20 returns. It sets its own field of the first word, keeps the two
  -- others, and changes no byte from the fourth on.
  pub first_word_setters :
      (v w : ℕ)
      → v < 256
      → w < 2 ^ 20
      → ((z : List ℕ) × (adjust_version y ≡ ok z)
          × (stated_version z ≡ 6)
          × (stated_class z ≡ stated_class y)
          × (stated_label z ≡ stated_label y)
          × SameBehind y z)
        × ((z : List ℕ) × (set_traffic_class y v ≡ ok z)
            × (stated_version z ≡ stated_version y)
            × (stated_class z ≡ v)
            × (stated_label z ≡ stated_label y)
            × SameBehind y z)
        × ((z : List ℕ) × (set_flow_label net y w ≡ ok z)
            × (stated_version z ≡ stated_version y)
            × (stated_class z ≡ stated_class y)
            × (stated_label z ≡ w)
            × SameBehind y z)
  first_word_setters v w k l =
      (adjust_version_Fields, set_traffic_class_Fields v k, set_flow_label_Fields w l)

-- ===== src/Ipv4/Fragment.antt =====
-- The fragmentation word of the IPv4 header: two flags and the offset in one 16-bit field.
use rpkt.Base.{
  ℕ, ◌+◌, ◌*◌, ◌/◌, ◌%◌, ◌^◌, ◌≤◌, eq→==, ◌==◌, Bool, true, false, not, bit_and, bit_or,
}
use rpkt.Base.{List, ok, ◌>>=◌, length, get_or, ◌≡◌, arith, ap, if◌then◌else◌, All, All-get_or}
use rpkt.Base.Bits.{bit_and_mask, bit_or_bit, bit_and_bit}
use rpkt.Extern.{ByteOrder, IsByte, IsU16}
use rpkt.Wire.{splice, field_u16}
use rpkt.Wire.Laws.{field_u16_ok, set_field_u16_ok, length-splice}
use rpkt.Wire.Fields.{wire_u16, field_u16-splice_self}
use rpkt.Ipv4.Header.{
  dont_frag, more_frags, frag_offset, set_flag, set_dont_frag, set_more_frags, set_frag_offset,
}
use rpkt.Ipv4.Masks.{dont_frag_down, more_frags_down, new_offset}

abbrev bit : Bool → ℕ
bit true = 1
bit false = 0

-- The word after each setter.
with_dont_frag : ℕ → Bool → ℕ
with_dont_frag raw v = raw / 2 ^ 15 * 2 ^ 15 + bit v * 2 ^ 14 + raw % 2 ^ 14

with_more_frags : ℕ → Bool → ℕ
with_more_frags raw v = raw / 2 ^ 14 * 2 ^ 14 + bit v * 2 ^ 13 + raw % 2 ^ 13

with_offset : ℕ → ℕ → ℕ
with_offset raw value = raw / 2 ^ 13 % 8 * 2 ^ 13 + value / 8

flag_14 :
    (raw : ℕ) (v : Bool)
    → IsU16 raw
    → (if v then bit_or raw 0x4000 else bit_and raw 0xbfff) ≡ with_dont_frag raw v
unfolding with_dont_frag
flag_14 raw true h = omega (arith, bit_or_bit 14 raw)
flag_14 raw false h = omega (arith, dont_frag_down raw h)

flag_13 :
    (raw : ℕ) (v : Bool)
    → IsU16 raw
    → (if v then bit_or raw 0x2000 else bit_and raw 0xdfff) ≡ with_more_frags raw v
unfolding with_more_frags
flag_13 raw true h = omega (arith, bit_or_bit 13 raw)
flag_13 raw false h = omega (arith, more_frags_down raw h)

module _ (net : ByteOrder) (buf : List ℕ) (raw : ℕ) (h : 20 ≤ length buf) (u : IsU16 raw)
    (reads : field_u16 net 6 8 buf ≡ ok raw) where
  set_dont_frag_ok :
      (v : Bool) → set_dont_frag net buf v ≡ ok (splice buf 6 (wire_u16 (with_dont_frag raw v)))
  unfolding set_dont_frag set_flag
  set_dont_frag_ok v =
      rw (reads, flag_14 raw v u) (set_field_u16_ok net 6 buf (with_dont_frag raw v) (omega arith))

  set_more_frags_ok :
      (v : Bool) → set_more_frags net buf v ≡ ok (splice buf 6 (wire_u16 (with_more_frags raw v)))
  unfolding set_more_frags set_flag
  set_more_frags_ok v =
      rw (reads, flag_13 raw v u) (set_field_u16_ok net 6 buf (with_more_frags raw v) (omega arith))

  set_frag_offset_ok :
      (value : ℕ)
      → IsU16 value
      → value % 8 ≡ 0
      → set_frag_offset net buf value ≡ ok (splice buf 6 (wire_u16 (with_offset raw value)))
  unfolding set_frag_offset with_offset
  set_frag_offset_ok value w e =
      rw
        (
          bit_and_mask 3 value,
          eq→== (value % 8) 0 e,
          reads,
          new_offset raw (value / 8) (omega arith),
        )
        (set_field_u16_ok net 6 buf (raw / 2 ^ 13 % 8 * 2 ^ 13 + value / 8) (omega arith))

  -- A 16-bit word written over the field is read back.
  word_written :
      (word : ℕ)
      → IsU16 word
      → let buf' = splice buf 6 (wire_u16 word) in
        (length buf' ≡ length buf) × (field_u16 net 6 8 buf' ≡ ok word)
  word_written word w = (
    length-splice buf 6 (wire_u16 word) (omega arith),
    field_u16-splice_self net buf 6 word (omega arith) w,
  )

words :
    (raw : ℕ) (d m : Bool) (o : ℕ)
    → IsU16 raw
    → IsU16 o
    → o % 8 ≡ 0
    → let word = with_offset (with_more_frags (with_dont_frag raw d) m) o in
      IsU16 (with_dont_frag raw d)
      × IsU16 (with_more_frags (with_dont_frag raw d) m)
      × IsU16 word
      × (word / 2 ^ 14 % 2 ≡ bit d)
      × (word / 2 ^ 13 % 2 ≡ bit m)
      × (word % 2 ^ 13 ≡ o / 8)
unfolding with_dont_frag with_more_frags with_offset
words raw true true o u v e = omega arith
words raw true false o u v e = omega arith
words raw false true o u v e = omega arith
words raw false false o u v e = omega arith

bit_is : (v : Bool) (n : ℕ) → n ≡ bit v → not (n * 2 ^ 14 == 0) ≡ v
bit_is true n e = ground arith
bit_is false n e = ground arith

bit_is_13 : (v : Bool) (n : ℕ) → n ≡ bit v → not (n * 2 ^ 13 == 0) ≡ v
bit_is_13 true n e = ground arith
bit_is_13 false n e = ground arith

-- On a buffer of at least 20 bytes `set_dont_frag`, `set_more_frags` and `set_frag_offset` (a multiple
-- of 8 below 2 ^ 16), in this order, return; the two flags and the offset are then read back.
pub flags-and-frag_offset :
    (net : ByteOrder) (buf : List ℕ) (d m : Bool) (o : ℕ)
    → All IsByte buf
    → 20 ≤ length buf
    → IsU16 o
    → o % 8 ≡ 0
    → (buf' : List ℕ) × ((set_dont_frag net buf d >>= λ b.
          set_more_frags net b m >>= λ c. set_frag_offset net c o)
        ≡ ok buf')
      × (dont_frag net buf' ≡ ok d)
      × (more_frags net buf' ≡ ok m)
      × (frag_offset net buf' ≡ ok o)
unfolding dont_frag more_frags frag_offset
flags-and-frag_offset net buf d m o bytes h v e =
    let raw : ℕ = get_or buf 6 0 * 256 + get_or buf 7 0 in
    let u : IsU16 raw = omega (
      arith,
      All-get_or IsByte buf 6 bytes (omega arith),
      All-get_or IsByte buf 7 bytes (omega arith),
    ) in
    let (u1, u2, u3, got_d, got_m, got_o) = words raw d m o u v e in
    let r0 : field_u16 net 6 8 buf ≡ ok raw = field_u16_ok net 6 buf (omega arith) in
    let raw1 : ℕ = with_dont_frag raw d in
    let raw2 : ℕ = with_more_frags raw1 m in
    let raw3 : ℕ = with_offset raw2 o in
    let (l1, r1) = word_written net buf raw h u r0 raw1 u1 in
    let buf1 : List ℕ = splice buf 6 (wire_u16 raw1) in
    let (l2, r2) = word_written net buf1 raw1 (omega arith) u1 r1 raw2 u2 in
    let buf2 : List ℕ = splice buf1 6 (wire_u16 raw2) in
    let (l3, r3) = word_written net buf2 raw2 (omega arith) u2 r2 raw3 u3 in
    (
      splice buf2 6 (wire_u16 raw3),
      rw
          (
            set_dont_frag_ok net buf raw h u r0 d,
            set_more_frags_ok net buf1 raw1 (omega arith) u1 r1 m,
          )
          (set_frag_offset_ok net buf2 raw2 (omega arith) u2 r2 o v e),
      rw (r3, bit_and_bit 14 raw3) (ap ok (bit_is d _ got_d)),
      rw (r3, bit_and_bit 13 raw3) (ap ok (bit_is_13 m _ got_m)),
      rw (r3, bit_and_mask 13 raw3, got_o) (ap ok (omega arith)),
    )

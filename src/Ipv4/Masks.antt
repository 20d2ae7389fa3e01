-- ===== src/Ipv4/Masks.antt =====
-- The masks of the IPv4 header as arithmetic: what each setter makes of the old bits, and what each
-- getter reads.
use rpkt.Base.{ℕ, ◌+◌, ◌*◌, ◌/◌, ◌%◌, ◌^◌, ◌<◌, bit_and, bit_or, ◌≡◌, arith, ◌∙◌}
use rpkt.Base.Bits.{bit_and_mask, bit_and_high, bit_or_low, bit_or_high, bit_and_keep}
use rpkt.Extern.{IsU16}

pub new_version : (b : ℕ) → bit_or (bit_and b 0x0f) 64 ≡ 64 + b % 16
new_version b = rw (bit_and_mask 4 b) (bit_or_high 4 4 (b % 16) (omega arith))

pub new_ihl : (b v : ℕ) → bit_or (bit_and b 0xf0) (bit_and v 0x0f) ≡ b / 16 % 16 * 16 + v % 16
new_ihl b v =
    rw (bit_and_mask 4 v, bit_and_high 4 15 b, bit_and_mask 4 (b / 16))
      (bit_or_low 4 (b / 16 % 16) (v % 16) (omega arith))

pub new_dscp : (b v : ℕ) → v < 64 → bit_or (bit_and b 0x03) (v * 4 % 256) ≡ v * 4 + b % 4
new_dscp b v h =
    let e : v * 4 % 256 ≡ v * 4 = omega arith in
    rw (bit_and_mask 2 b, e) (bit_or_high 2 v (b % 4) (omega arith))

pub new_ecn : (b v : ℕ) → bit_or (bit_and b 0xfc) (bit_and v 0x03) ≡ b / 4 % 64 * 4 + v % 4
new_ecn b v =
    rw (bit_and_mask 2 v, bit_and_high 2 63 b, bit_and_mask 6 (b / 4))
      (bit_or_low 2 (b / 4 % 64) (v % 4) (omega arith))

-- The three flags and the offset share a 16-bit field.
pub dont_frag_down :
    (raw : ℕ) → IsU16 raw → bit_and raw 0xbfff ≡ raw / 2 ^ 15 * 2 ^ 15 + raw % 2 ^ 14
dont_frag_down raw h =
    bit_and_keep 14 2 raw
    ∙ rw (bit_and_high 1 1 (raw / 2 ^ 14), bit_and_mask 1 (raw / 2 ^ 14 / 2)) (omega arith)

pub more_frags_down :
    (raw : ℕ) → IsU16 raw → bit_and raw 0xdfff ≡ raw / 2 ^ 14 * 2 ^ 14 + raw % 2 ^ 13
more_frags_down raw h =
    bit_and_keep 13 6 raw
    ∙ rw (bit_and_high 1 3 (raw / 2 ^ 13), bit_and_mask 2 (raw / 2 ^ 13 / 2)) (omega arith)

pub new_offset :
    (raw v : ℕ) → v < 2 ^ 13 → bit_or (bit_and raw 0xe000) v ≡ raw / 2 ^ 13 % 8 * 2 ^ 13 + v
new_offset raw v h =
    rw (bit_and_high 13 7 raw, bit_and_mask 3 (raw / 2 ^ 13)) (bit_or_low 13 (raw / 2 ^ 13 % 8) v h)

-- ===== src/Icmpv6/Bits.antt =====
-- Flags and reserved bytes, as the ICMPv6 messages and the NDP options read and write them.
use rpkt.Base.{ℕ, ◌-◌, ◌/◌, ◌^◌, ◌==◌, Bool, bit_and, bit_or, if◌then◌else◌, List, replicate}
use rpkt.Base.{Outcome, ok, ◌>>=◌}
use rpkt.Wire.{slice, byte_at, set_byte, set_range}
use rpkt.Ether.Header.{same_bytes}

-- `buf[at] >> 7 == 1`
unfoldable pub top_flag : ℕ → List ℕ → Outcome Bool
top_flag at buf = byte_at buf at >>= λ b. ok (b / 2 ^ 7 == 1)

-- `(buf[at] >> k) & 1 == 1`
unfoldable pub flag : ℕ → ℕ → List ℕ → Outcome Bool
flag at k buf = byte_at buf at >>= λ b. ok (bit_and (b / 2 ^ k) 1 == 1)

-- `buf[at] | (1 << k)` or `buf[at] & mask`, where the mask is `!(1 << k)`.
unfoldable pub set_flag : ℕ → ℕ → List ℕ → Bool → Outcome (List ℕ)
set_flag at k buf value = byte_at buf at >>= λ b.
    set_byte buf at (if value then bit_or b (2 ^ k) else bit_and b (0xff - 2 ^ k))

-- `buf[left..right] == [0, …]` and `buf[left..right].fill(0)`
unfoldable pub are_zero : ℕ → ℕ → List ℕ → Outcome Bool
are_zero left right buf =
    slice buf left right >>= λ bytes. ok (same_bytes bytes (replicate (right - left) 0))

unfoldable pub fill_zero : ℕ → ℕ → List ℕ → Outcome (List ℕ)
fill_zero left right buf = set_range buf left right (replicate (right - left) 0)

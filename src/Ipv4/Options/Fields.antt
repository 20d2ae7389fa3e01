-- ===== src/Ipv4/Options/Fields.antt =====
-- rpkt/src/ipv4/option.rs: the accessors of `Ipv4OptionTs`, `Ipv4OptionRr` and `Ipv4OptionRa`, on the bytes
-- of an option. `usize` has 64 bits.
pub mod Moves
use rpkt.Base.{
  ℕ, ◌+◌, ◌*◌, ◌-◌, ◌/◌, ◌%◌, ◌^◌, leb, bit_and, bit_or, List, Outcome, ok, ◌>>=◌, ◌>>◌, assert,
}
use rpkt.Extern.{ByteOrder}
use rpkt.Wire.{slice, byte_at, set_byte, field_u16, set_field_u16}

abbrev pub sub_usize : ℕ → ℕ → ℕ
sub_usize a b = (a + 2 ^ 64 - b) % 2 ^ 64

abbrev pub add_usize : ℕ → ℕ → ℕ
add_usize a b = (a + b) % 2 ^ 64

unfoldable pub flg : List ℕ → Outcome ℕ
flg buf = byte_at buf 3 >>= λ b. ok (bit_and b 0x0f)

unfoldable pub overflow : List ℕ → Outcome ℕ
overflow buf = byte_at buf 3 >>= λ b. ok (b / 2 ^ 4)

unfoldable pub set_flg : List ℕ → ℕ → Outcome (List ℕ)
set_flg buf value =
    byte_at buf 3 >>= λ b. set_byte buf 3 (bit_or (bit_and b 0xf0) (bit_and value 0x0f))

unfoldable pub inc_overflow : List ℕ → Outcome (List ℕ)
inc_overflow buf = byte_at buf 3 >>= λ b. set_byte buf 3 ((b + 2 ^ 4) % 2 ^ 8)

-- The two options that routers fill differ in where their data starts: at byte 4 of a timestamp, at
-- byte 3 of a recorded route.
module _ (data_start : ℕ) where
  unfoldable pub readable : List ℕ → Outcome (List ℕ)
  readable buf = do
    pointer ← byte_at buf 2
    slice buf data_start (add_usize data_start (sub_usize pointer (data_start + 1)))

unfoldable pub remaining : List ℕ → Outcome ℕ
remaining buf = do
  len ← byte_at buf 1
  pointer ← byte_at buf 2
  ok (sub_usize (add_usize len 1) pointer)

-- The slice that `writable` gives.
unfoldable pub writable : List ℕ → Outcome (List ℕ)
writable buf = do pointer ← byte_at buf 2; len ← byte_at buf 1; slice buf (sub_usize pointer 1) len

unfoldable pub inc_readable_size : List ℕ → ℕ → Outcome (List ℕ)
inc_readable_size buf value = do
  room ← remaining buf
  assert (leb value room)
  pointer ← byte_at buf 2
  set_byte buf 2 ((pointer + value % 2 ^ 8) % 2 ^ 8)

module _ (net : ByteOrder) where
  unfoldable pub alert_value : List ℕ → Outcome ℕ
  alert_value buf = field_u16 net 2 4 buf

  unfoldable pub set_alert_value : List ℕ → ℕ → Outcome (List ℕ)
  set_alert_value buf value = set_field_u16 net 2 4 buf value

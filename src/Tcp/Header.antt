-- ===== src/Tcp/Header.antt =====
-- rpkt/src/tcp/header.rs: `TcpHeader` over the bytes of a buffer.
use rpkt.Base.{
  ℕ, ◌-◌, ◌*◌, ◌/◌, ◌%◌, ◌^◌, leb, if◌then◌else◌, not, ◌==◌, ◌&&◌, Bool, bit_and, bit_or,
}
use rpkt.Base.{List, ◌∷◌, ◌++◌, replicate, Outcome, ok, ◌>>=◌, ◌>>◌, assert, length, ◌⊎◌, inl, inr}
use rpkt.Extern.{ByteOrder}
use rpkt.Wire.{copy_from_slice, slice, field_u16, set_field_u16, field_u32, set_field_u32}

abbrev pub flg_fin : ℕ
flg_fin = 0x001

abbrev pub flg_syn : ℕ
flg_syn = 0x002

abbrev pub flg_rst : ℕ
flg_rst = 0x004

abbrev pub flg_psh : ℕ
flg_psh = 0x008

abbrev pub flg_ack : ℕ
flg_ack = 0x010

abbrev pub flg_urg : ℕ
flg_urg = 0x020

abbrev pub flg_ece : ℕ
flg_ece = 0x040

abbrev pub flg_cwr : ℕ
flg_cwr = 0x080

abbrev pub flg_ns : ℕ
flg_ns = 0x100

abbrev pub tcp_header_len : ℕ
tcp_header_len = 20

abbrev pub tcp_header_template : List ℕ
tcp_header_template = replicate 12 0 ++ (0x50 ∷ replicate 7 0)

abbrev pub not_u16 : ℕ → ℕ
not_u16 m = 0xffff - m

-- `Ok` on the left.
unfoldable pub new : List ℕ → List ℕ ⊎ List ℕ
new buf = if leb tcp_header_len (length buf) then inl buf else inr buf

unfoldable pub as_bytes : List ℕ → Outcome (List ℕ)
as_bytes buf = slice buf 0 tcp_header_len

unfoldable pub to_owned : List ℕ → Outcome (List ℕ)
to_owned buf = as_bytes buf >>= copy_from_slice (replicate tcp_header_len 0)

module _ (net : ByteOrder) where
  unfoldable pub header_len : List ℕ → Outcome ℕ
  header_len buf = field_u16 net 12 14 buf >>= λ raw. ok (bit_and raw 0xf000 / 2 ^ 10 % 2 ^ 8)

  unfoldable pub src_port : List ℕ → Outcome ℕ
  src_port buf = field_u16 net 0 2 buf

  unfoldable pub dst_port : List ℕ → Outcome ℕ
  dst_port buf = field_u16 net 2 4 buf

  unfoldable pub seq_number : List ℕ → Outcome ℕ
  seq_number buf = field_u32 net 4 8 buf

  unfoldable pub ack_number : List ℕ → Outcome ℕ
  ack_number buf = field_u32 net 8 12 buf

  -- `fin`, `syn` and the other flags, by their mask.
  unfoldable pub flag : ℕ → List ℕ → Outcome Bool
  flag mask buf = field_u16 net 12 14 buf >>= λ raw. ok (not (bit_and raw mask == 0))

  unfoldable pub check_reserved : List ℕ → Outcome Bool
  check_reserved buf = field_u16 net 12 14 buf >>= λ raw. ok (bit_and raw 0x0e00 / 2 ^ 9 == 0)

  unfoldable pub window_size : List ℕ → Outcome ℕ
  window_size buf = field_u16 net 14 16 buf

  unfoldable pub checksum : List ℕ → Outcome ℕ
  checksum buf = field_u16 net 16 18 buf

  unfoldable pub urgent_ptr : List ℕ → Outcome ℕ
  urgent_ptr buf = field_u16 net 18 20 buf

  unfoldable pub set_header_len : List ℕ → ℕ → Outcome (List ℕ)
  set_header_len buf value = do
    assert (leb 20 value && (leb value 60 && (bit_and value 0x03 == 0)))
    raw ← field_u16 net 12 14 buf
    set_field_u16 net 12 14 buf (bit_or (bit_and raw (not_u16 0xf000)) (value * 2 ^ 10 % 2 ^ 16))

  unfoldable pub set_src_port : List ℕ → ℕ → Outcome (List ℕ)
  set_src_port buf value = set_field_u16 net 0 2 buf value

  unfoldable pub set_dst_port : List ℕ → ℕ → Outcome (List ℕ)
  set_dst_port buf value = set_field_u16 net 2 4 buf value

  unfoldable pub set_seq_number : List ℕ → ℕ → Outcome (List ℕ)
  set_seq_number buf value = set_field_u32 net 4 8 buf value

  unfoldable pub set_ack_number : List ℕ → ℕ → Outcome (List ℕ)
  set_ack_number buf value = set_field_u32 net 8 12 buf value

  unfoldable pub clear_flags : List ℕ → Outcome (List ℕ)
  clear_flags buf = do
    raw ← field_u16 net 12 14 buf
    set_field_u16 net 12 14 buf (bit_and raw (not_u16 0x0fff))

  -- `set_fin`, `set_syn` and the other flags, by their mask.
  unfoldable pub set_flag : ℕ → List ℕ → Bool → Outcome (List ℕ)
  set_flag mask buf value = do
    raw ← field_u16 net 12 14 buf
    set_field_u16 net 12 14 buf (if value then bit_or raw mask else bit_and raw (not_u16 mask))

  unfoldable pub adjust_reserved : List ℕ → Outcome (List ℕ)
  adjust_reserved buf = do
    raw ← field_u16 net 12 14 buf
    set_field_u16 net 12 14 buf (bit_and raw 0xf1ff)

  unfoldable pub set_window_size : List ℕ → ℕ → Outcome (List ℕ)
  set_window_size buf value = set_field_u16 net 14 16 buf value

  unfoldable pub set_checksum : List ℕ → ℕ → Outcome (List ℕ)
  set_checksum buf value = set_field_u16 net 16 18 buf value

  unfoldable pub set_urgent_ptr : List ℕ → ℕ → Outcome (List ℕ)
  set_urgent_ptr buf value = set_field_u16 net 18 20 buf value

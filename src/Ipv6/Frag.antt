-- ===== src/Ipv6/Frag.antt =====
-- rpkt/src/ipv6/extentions/frag.rs: `FragHeader` over the bytes of a buffer, and `FragPacket` over any
-- buffer. A shift of a `u16` to the left keeps sixteen bits.
pub mod Fields
pub mod Exchange
use rpkt.Base.{ℕ, ◌*◌, ◌/◌, ◌%◌, ◌^◌, leb, if◌then◌else◌, ◌==◌, Bool, bit_and, bit_or}
use rpkt.Base.{List, replicate, Outcome, ok, ◌>>=◌, ◌>>◌, length, ◌⊎◌, inl, inr}
use rpkt.Extern.{ByteOrder, Buf}
use rpkt.Wire.{slice, copy_from_slice, byte_at, set_byte, field_u16, set_field_u16}
use rpkt.Wire.{field_u32, set_field_u32}
use rpkt.Traits.{PktMut}
use rpkt.Packet.Fixed.{push_header_checked}

abbrev pub frag_header_len : ℕ
frag_header_len = 8

-- `Ok` on the left.
unfoldable pub new : List ℕ → List ℕ ⊎ List ℕ
new buf = if leb frag_header_len (length buf) then inl buf else inr buf

unfoldable pub as_bytes : List ℕ → Outcome (List ℕ)
as_bytes buf = slice buf 0 frag_header_len

unfoldable pub to_owned : List ℕ → Outcome (List ℕ)
to_owned buf = as_bytes buf >>= copy_from_slice (replicate frag_header_len 0)

-- An `IpProtocol` is its number.
unfoldable pub next_header : List ℕ → Outcome ℕ
next_header buf = byte_at buf 0

unfoldable pub set_next_header : List ℕ → ℕ → Outcome (List ℕ)
set_next_header buf value = set_byte buf 0 value

module _ (net : ByteOrder) where
  unfoldable pub frag_off : List ℕ → Outcome ℕ
  frag_off buf = field_u16 net 2 4 buf >>= λ raw. ok (raw / 2 ^ 3)

  unfoldable pub m_flag : List ℕ → Outcome Bool
  m_flag buf = field_u16 net 2 4 buf >>= λ raw. ok (bit_and raw 1 == 1)

  unfoldable pub ident : List ℕ → Outcome ℕ
  ident buf = field_u32 net 4 8 buf

  unfoldable pub adjust_reserved : List ℕ → Outcome (List ℕ)
  adjust_reserved buf = do
    buf' ← set_byte buf 1 0
    raw ← field_u16 net 2 4 buf'
    set_field_u16 net 2 4 buf' (bit_and raw 0xfff9)

  unfoldable pub set_frag_off : List ℕ → ℕ → Outcome (List ℕ)
  set_frag_off buf value = do
    raw ← field_u16 net 2 4 buf
    set_field_u16 net 2 4 buf (bit_or (value * 2 ^ 3 % 2 ^ 16) (bit_and raw 1))

  unfoldable pub set_m_flag : List ℕ → Bool → Outcome (List ℕ)
  set_m_flag buf value = do
    raw ← field_u16 net 2 4 buf
    set_field_u16 net 2 4 buf
        (if value then bit_or (raw / 2 ^ 3 * 2 ^ 3 % 2 ^ 16) 1 else raw / 2 ^ 3 * 2 ^ 3 % 2 ^ 16)

  unfoldable pub set_ident : List ℕ → ℕ → Outcome (List ℕ)
  set_ident buf value = set_field_u32 net 4 8 buf value

module _ (B : Buf) where
  unfoldable pub parse : B.Buffer → Outcome (B.Buffer ⊎ B.Buffer)
  parse buf = if leb frag_header_len (length (B.chunk buf)) then ok (inl buf) else ok (inr buf)

  unfoldable pub payload : B.Buffer → Outcome B.Buffer
  payload buf = B.advance buf frag_header_len

module _ (P : PktMut) where
  unfoldable pub prepend_header : P.Buffer → List ℕ → Outcome P.Buffer
  prepend_header buf header = push_header_checked P frag_header_len buf header

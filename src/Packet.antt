-- ===== src/Packet.antt =====
-- rpkt/src/macros.rs, `packet_base!`: a packet is its buffer, and its getters and setters are those of
-- the header over the buffer's chunk.
pub mod Laws
pub mod Checksum
pub mod Adjust
pub mod Fixed
use rpkt.Base.{ℕ, ◌-◌, ◌^◌, ltb, leb, List, Outcome, ok, panic, ◌>>=◌, ◌>>◌, assert, if◌then◌else◌}
use rpkt.Wire.{slice, set_range}
use rpkt.Extern.{Buf}
use rpkt.Traits.{PktBuf, PktMut}

module _ (B : Buf) where
  unfoldable pub get : {A : Type 0} → (List ℕ → Outcome A) → B.Buffer → Outcome A
  get method buf = method (B.chunk buf)

  -- `header()`
  pub header : ℕ → B.Buffer → Outcome (List ℕ)
  header hlen buf = slice (B.chunk buf) 0 hlen

module _ (P : PktBuf) where
  -- `if trim_size > 0 { buf.trim_off(trim_size) }` for the bytes beyond `len`, and
  -- `buf.advance(hlen)`.
  unfoldable pub trim_and_advance : ℕ → ℕ → P.Buffer → Outcome P.Buffer
  trim_and_advance len hlen buf = do
    trimmed ←
        if ltb 0 (P.remaining buf - len) then P.trim_off buf (P.remaining buf - len) else ok buf
    P.advance trimmed hlen

module _ (P : PktMut) where
  unfoldable pub set : (List ℕ → Outcome (List ℕ)) → P.Buffer → Outcome P.Buffer
  set method buf = method (P.chunk buf) >>= λ bytes. ok (P.put_chunk buf bytes)

  -- `buf.chunk_mut()[0..hlen].copy_from_slice(bytes)`
  pub put_header : ℕ → List ℕ → P.Buffer → Outcome P.Buffer
  put_header hlen bytes buf = set (λ chunk. set_range chunk 0 hlen bytes) buf

-- `u16::try_from(n).unwrap()`
pub try_u16 : ℕ → Outcome ℕ
try_u16 n = if ltb n (2 ^ 16) then ok n else panic

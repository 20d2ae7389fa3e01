-- ===== src/Extern.antt =====
-- What the sources call of other crates, as parameters: byteorder's `NetworkEndian` and the `Buf`
-- trait of bytes. The laws are the documented behaviour of those crates.
use rpkt.Base.{ℕ, ◌+◌, ◌*◌, ◌/◌, ◌%◌, ◌^◌, ◌≤◌, ◌<◌, ◌≡◌, ◌≢◌, List, [], ◌∷◌, ◌++◌}
use rpkt.Base.{Outcome, ok, panic, length, take, drop, leb, if◌then◌else◌}

abbrev pub IsByte : ℕ → Type 0
IsByte b = b < 256

abbrev pub IsU16 : ℕ → Type 0
IsU16 n = n < 2 ^ 16

abbrev pub IsU32 : ℕ → Type 0
IsU32 n = n < 2 ^ 32

-- `byteorder::NetworkEndian`: big-endian reads and writes at the front of a slice. Each panics on
-- a slice that is too short.
pub record ByteOrder : Type 0 where
  pub read_u16 : List ℕ → Outcome ℕ
  pub read_u32 : List ℕ → Outcome ℕ
  pub read_u24 : List ℕ → Outcome ℕ
  pub write_u24 : List ℕ → ℕ → Outcome (List ℕ)
  pub write_u16 : List ℕ → ℕ → Outcome (List ℕ)
  pub write_u32 : List ℕ → ℕ → Outcome (List ℕ)
  pub read_u16_ok : (a b : ℕ) (rest : List ℕ) → read_u16 (a ∷ b ∷ rest) ≡ ok (a * 256 + b)
  pub read_u16_short : (buf : List ℕ) → length buf < 2 → read_u16 buf ≡ panic
  pub read_u32_ok :
      (a b c d : ℕ) (rest : List ℕ)
      → read_u32 (a ∷ b ∷ c ∷ d ∷ rest) ≡ ok (((a * 256 + b) * 256 + c) * 256 + d)
  pub read_u32_short : (buf : List ℕ) → length buf < 4 → read_u32 buf ≡ panic
  pub read_u24_ok :
      (a b c : ℕ) (rest : List ℕ) → read_u24 (a ∷ b ∷ c ∷ rest) ≡ ok ((a * 256 + b) * 256 + c)
  pub write_u24_ok :
      (a b c n : ℕ) (rest : List ℕ)
      → n < 2 ^ 24
      → write_u24 (a ∷ b ∷ c ∷ rest) n ≡ ok (n / 2 ^ 16 % 256 ∷ n / 256 % 256 ∷ n % 256 ∷ rest)
  pub write_u16_ok :
      (a b n : ℕ) (rest : List ℕ) → write_u16 (a ∷ b ∷ rest) n ≡ ok (n / 256 % 256 ∷ n % 256 ∷ rest)
  pub write_u16_short : (buf : List ℕ) (n : ℕ) → length buf < 2 → write_u16 buf n ≡ panic
  pub write_u32_ok :
      (a b c d n : ℕ) (rest : List ℕ)
      → write_u32 (a ∷ b ∷ c ∷ d ∷ rest) n
        ≡ ok (n / 2 ^ 24 % 256 ∷ n / 2 ^ 16 % 256 ∷ n / 256 % 256 ∷ n % 256 ∷ rest)
  pub write_u32_short : (buf : List ℕ) (n : ℕ) → length buf < 4 → write_u32 buf n ≡ panic

-- The trait `bytes::Buf`: a readable sequence of bytes, possibly in several pieces.
pub record Buf : Type 1 where
  pub Buffer : Type 0
  pub remaining : Buffer → ℕ
  pub chunk : Buffer → List ℕ
  pub advance : Buffer → ℕ → Outcome Buffer

-- What the trait asks of an implementation, over the bytes that are still to be read, in the states
-- that `IsSound` admits: `chunk` is a
-- front part of them, empty only at the end, and `advance` passes over bytes.
pub record IsBuf (B : Buf) : Type 1 where
  pub IsSound : B.Buffer → Type 0
  pub bytes : B.Buffer → List ℕ
  pub tail : B.Buffer → List ℕ
  pub remaining_lem : (b : B.Buffer) → IsSound b → B.remaining b ≡ length (bytes b)
  pub chunk-append-tail : (b : B.Buffer) → IsSound b → B.chunk b ++ tail b ≡ bytes b
  pub chunk-ne-nil : (b : B.Buffer) → IsSound b → bytes b ≢ [] → B.chunk b ≢ []
  pub advance_ok :
      (b : B.Buffer) (cnt : ℕ)
      → IsSound b
      → cnt ≤ length (bytes b)
      → (b' : B.Buffer) × (B.advance b cnt ≡ ok b') × IsSound b' × (bytes b' ≡ drop cnt (bytes b))

-- `bytes::buf::Take`, the adaptor that `Buf::take` returns: the first bytes of a buffer, up to a
-- limit. What is read from it is read from the buffer inside.
pub record Take (B : Buf) : Type 1 where
  pub buf : Buf
  pub take_buf : B.Buffer → ℕ → buf.Buffer
  pub into_inner : buf.Buffer → B.Buffer
  pub limit : buf.Buffer → ℕ
  pub into_inner-take_buf : (b : B.Buffer) (n : ℕ) → into_inner (take_buf b n) ≡ b
  pub limit-take_buf : (b : B.Buffer) (n : ℕ) → limit (take_buf b n) ≡ n
  pub remaining_lem :
      (t : buf.Buffer)
      → buf.remaining t ≡ (
          if leb (B.remaining (into_inner t)) (limit t)
          then B.remaining (into_inner t)
          else limit t)
  pub chunk_lem : (t : buf.Buffer) → buf.chunk t ≡ take (limit t) (B.chunk (into_inner t))
  pub advance_ok :
      (t : buf.Buffer) (cnt : ℕ) (b' : B.Buffer)
      → cnt ≤ limit t
      → B.advance (into_inner t) cnt ≡ ok b'
      → (t' : buf.Buffer) × (buf.advance t cnt ≡ ok t')
        × (into_inner t' ≡ b')
        × (limit t' + cnt ≡ limit t)

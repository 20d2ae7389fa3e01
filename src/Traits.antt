-- ===== src/Traits.antt =====
-- rpkt/src/traits.rs: `PktBuf` and `PktMut`, the buffers that the packet types are generic over, and
-- what their implementations promise. `chunk_mut` is read as `chunk`, and `put_chunk` is the buffer
-- after a write through it.
use rpkt.Base.{ℕ, ◌-◌, ◌≤◌, ◌<◌, ◌≡◌, List, ◌++◌, Outcome, ok, panic, length, take, drop}
use rpkt.Extern.{Buf}

pub record PktBuf : Type 1 where
  pub buf : Buf
  pub open buf use *
  pub move_back : Buffer → ℕ → Outcome Buffer
  pub trim_off : Buffer → ℕ → Outcome Buffer

pub record PktMut : Type 1 where
  pub pkt_buf : PktBuf
  pub open pkt_buf use *
  pub chunk_headroom : Buffer → ℕ
  pub put_chunk : Buffer → List ℕ → Buffer

-- The contract of a buffer in one piece, for the states that `IsSound` admits: `front` are the bytes
-- of the headroom and `body` those that are still to be read. Each operation moves the border between
-- them, or panics.
pub record IsPktMut (P : PktMut) : Type 1 where
  pub IsSound : P.Buffer → Type 0
  pub front : P.Buffer → List ℕ
  pub body : P.Buffer → List ℕ
  pub remaining_lem : (b : P.Buffer) → IsSound b → P.remaining b ≡ length (body b)
  pub chunk_lem : (b : P.Buffer) → IsSound b → P.chunk b ≡ body b
  pub headroom_lem : (b : P.Buffer) → IsSound b → P.chunk_headroom b ≡ length (front b)
  pub advance_ok :
      (b : P.Buffer) (cnt : ℕ)
      → IsSound b
      → cnt ≤ length (body b)
      → (b' : P.Buffer) × (P.advance b cnt ≡ ok b')
        × IsSound b'
        × (front b' ≡ front b ++ take cnt (body b))
        × (body b' ≡ drop cnt (body b))
  pub advance_panic :
      (b : P.Buffer) (cnt : ℕ) → IsSound b → length (body b) < cnt → P.advance b cnt ≡ panic
  pub move_back_ok :
      (b : P.Buffer) (cnt : ℕ)
      → IsSound b
      → cnt ≤ length (front b)
      → (b' : P.Buffer) × (P.move_back b cnt ≡ ok b')
        × IsSound b'
        × (front b' ≡ take (length (front b) - cnt) (front b))
        × (body b' ≡ drop (length (front b) - cnt) (front b) ++ body b)
  pub move_back_panic :
      (b : P.Buffer) (cnt : ℕ) → IsSound b → length (front b) < cnt → P.move_back b cnt ≡ panic
  pub trim_off_ok :
      (b : P.Buffer) (cnt : ℕ)
      → IsSound b
      → cnt ≤ length (body b)
      → (b' : P.Buffer) × (P.trim_off b cnt ≡ ok b')
        × IsSound b'
        × (front b' ≡ front b)
        × (body b' ≡ take (length (body b) - cnt) (body b))
  pub trim_off_panic :
      (b : P.Buffer) (cnt : ℕ) → IsSound b → length (body b) < cnt → P.trim_off b cnt ≡ panic
  pub put_chunk_ok :
      (b : P.Buffer) (bytes : List ℕ)
      → IsSound b
      → length bytes ≡ length (body b)
      → IsSound (P.put_chunk b bytes)
        × (front (P.put_chunk b bytes) ≡ front b)
        × (body (P.put_chunk b bytes) ≡ bytes)

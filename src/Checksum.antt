-- ===== src/Checksum.antt =====
-- rpkt/src/checksum_utils.rs: RFC 1071 checksums over a slice, over several checksums, and over a
-- buffer that comes in pieces. `+=` on u32 and u16 wraps. A loop that runs out of fuel panics here.
pub mod Spec
pub mod Segments
pub mod Combine
pub mod Slice
pub mod Taken
pub mod Field
use rpkt.Base.{ℕ, zero, suc, ◌+◌, ◌*◌, ◌/◌, ◌%◌, ◌^◌, bit_and, leb, ltb, length, take, drop}
use rpkt.Base.{
  Bool, true, false, List, [], ◌∷◌, Option, none, some, Outcome, ok, panic, ◌>>=◌, ◌>>◌,
}
use rpkt.Extern.{ByteOrder, Buf, Take}

abbrev pub add_u32 : ℕ → ℕ → ℕ
add_u32 a b = (a + b) % 2 ^ 32

abbrev pub add_u16 : ℕ → ℕ → ℕ
add_u16 a b = (a + b) % 2 ^ 16

pub propagate_carries : ℕ → ℕ
propagate_carries word =
    let sum = add_u32 (word / 2 ^ 16) (bit_and word 0xffff) in
    add_u16 (sum / 2 ^ 16 % 2 ^ 16) (sum % 2 ^ 16)

abbrev pub chunk_size : ℕ
chunk_size = 32

-- `accum += (value as u32) << 8` for a last odd byte.
abbrev pub add_odd : ℕ → Option ℕ → ℕ
add_odd accum none = accum
add_odd accum (some value) = add_u32 accum (value * 2 ^ 8 % 2 ^ 32)

abbrev pub first : List ℕ → Option ℕ
first [] = none
first (x ∷ _) = some x

module _ (net : ByteOrder) where
  -- `while d.len() >= 2`: the sum so far, and what is left of the slice.
  pub sum_pairs : ℕ → List ℕ → Outcome (ℕ × List ℕ)
  sum_pairs accum (a ∷ b ∷ rest) = do
    word ← net.read_u16 (a ∷ b ∷ rest)
    sum_pairs (add_u32 accum word) rest
  sum_pairs accum (a ∷ []) = ok (accum, a ∷ [])
  sum_pairs accum [] = ok (accum, [])

  -- `while data.len() >= CHUNK_SIZE`
  pub sum_chunks : ℕ → ℕ → List ℕ → Outcome (ℕ × List ℕ)
  sum_chunks zero accum data_ = panic
  sum_chunks (suc fuel) accum data_ = elim (leb chunk_size (length data_)) [
    | true ↦
        sum_pairs accum (take chunk_size data_) >>= λ d. sum_chunks fuel d.0 (drop chunk_size data_)
    | false ↦ ok (accum, data_)
  ]

  pub from_slice : List ℕ → Outcome ℕ
  from_slice data_ = do
    (accum, rest) ← sum_chunks (suc (length data_)) 0 data_
    (accum', last) ← sum_pairs accum rest
    ok (propagate_carries (add_odd accum' (first last)))

  -- The new `accum` with the tail byte that is returned. An empty slice after a tail byte is read
  -- out of bounds.
  pub join_tail : List ℕ → ℕ → Option ℕ → Outcome (ℕ × List ℕ)
  join_tail data_ accum none = ok (accum, data_)
  join_tail [] accum (some byte) = panic
  join_tail (x ∷ rest) accum (some byte) = do
    word ← net.read_u16 (byte ∷ x ∷ [])
    ok (add_u32 accum word, rest)

  pub from_slice_with_tail_byte : List ℕ → ℕ → Option ℕ → Outcome (ℕ × Option ℕ)
  from_slice_with_tail_byte data_ accum tail_byte = do
    (accum1, rest) ← join_tail data_ accum tail_byte
    (accum2, rest2) ← sum_chunks (suc (length rest)) accum1 rest
    (accum3, last) ← sum_pairs accum2 rest2
    ok (accum3, first last)

  -- `T` is `Take<T>`, the adaptor that `buf.take(len)` returns. What is left of it is returned with
  -- the sum.
  module _ (T : Buf) where
    pub buf_loop : ℕ → T.Buffer → ℕ → Option ℕ → Outcome (ℕ × Option ℕ × T.Buffer)
    buf_loop zero buf accum tail_byte = panic
    buf_loop (suc fuel) buf accum tail_byte = elim (ltb 0 (T.remaining buf)) [
      | false ↦ ok (accum, tail_byte, buf)
      | true ↦ from_slice_with_tail_byte (T.chunk buf) accum tail_byte >>= λ s.
          T.advance buf (length (T.chunk buf)) >>= λ rest. buf_loop fuel rest s.0 s.1
    ]

    pub from_taken : T.Buffer → Outcome (ℕ × T.Buffer)
    from_taken buf = do
      (accum, tail_byte, left) ← buf_loop (suc (T.remaining buf)) buf 0 none
      ok (propagate_carries (add_odd accum tail_byte), left)

  -- With the checksum, the caller's buffer: a caller that passes `&mut buf` finds it advanced.
  module _ (B : Buf) (T : Take B) where
    unfoldable pub from_buf : B.Buffer → ℕ → Outcome (ℕ × B.Buffer)
    from_buf buf len = do
      (checksum, left) ← from_taken T.buf (T.take_buf buf len)
      ok (checksum, T.into_inner left)

combine_loop : ℕ → List ℕ → ℕ
combine_loop accum [] = accum
combine_loop accum (word ∷ words) = combine_loop (add_u32 accum word) words

pub combine : List ℕ → ℕ
unfolding combine_loop
combine checksums = propagate_carries (combine_loop 0 checksums)

-- ===== src/Checksum/Slice.antt =====
-- `from_slice`: the unrolled loop is the plain loop, and both compute the RFC 1071 sum.
use rpkt.Base.{ℕ, zero, suc, ◌+◌, ◌-◌, ◌*◌, ◌^◌, ◌≤◌, ◌<◌, leb, Bool-cases}
use rpkt.Base.{List, [], ◌∷◌, ◌++◌, length, All, take, drop, ◌≡◌, refl, arith}
use rpkt.Base.{ok, ◌>>=◌, inl, inr, sym, ap, ◌∙◌, leb→le}
use rpkt.Base.{length-take, length-drop, take-append-drop}
use rpkt.Base.{>>=_assoc, >>=_congr}
use native.Mathlib.Nat.{zero-add}
use rpkt.Extern.{ByteOrder, IsByte, IsU32}
use rpkt.Checksum.{add_u32, add_odd, first, chunk_size, sum_pairs, sum_chunks, from_slice}
use rpkt.Checksum.{propagate_carries}
use rpkt.Checksum.Spec.{word_sum, fold, pair_sum, odd_byte, word_sum-pairs}
use rpkt.Checksum.Spec.{propagate_carries-fold, word_sum-IsU32}

-- The byte that no pair takes is added as the padded word.
pub last_odd :
    (n : ℕ) (data_ : List ℕ)
    → IsU32 (n + word_sum (odd_byte data_))
    → add_odd n (first (odd_byte data_)) ≡ n + word_sum (odd_byte data_)
unfolding odd_byte word_sum
last_odd n [] h = omega arith
last_odd n (a ∷ []) h = omega arith
last_odd n (a ∷ b ∷ rest) h = last_odd n rest h

module _ (net : ByteOrder) where
  sum_pairs-append :
      (n accum : ℕ) (xs ys : List ℕ)
      → length xs ≡ 2 * n
      → sum_pairs net accum (xs ++ ys) ≡ (sum_pairs net accum xs >>= λ d. sum_pairs net d.0 ys)
  unfolding sum_pairs
  sum_pairs-append n accum [] ys e = refl
  sum_pairs-append n accum (a ∷ []) ys e = absurd (omega arith)
  sum_pairs-append n accum (a ∷ b ∷ xs) ys e =
      rw (net.read_u16_ok a b (xs ++ ys), net.read_u16_ok a b xs)
        (sum_pairs-append (n - 1) (add_u32 accum (a * 256 + b)) xs ys (omega arith))

  -- The loop over chunks of 32 bytes changes nothing, with fuel beyond the length.
  pub sum_chunks-sum_pairs :
      (fuel accum : ℕ) (data_ : List ℕ)
      → length data_ < fuel
      → (sum_chunks net fuel accum data_ >>= λ d. sum_pairs net d.0 d.1) ≡ sum_pairs net accum data_
  unfolding sum_chunks
  sum_chunks-sum_pairs zero accum data_ h = absurd (omega arith)
  sum_chunks-sum_pairs (suc fuel) accum data_ h =
      elim (Bool-cases (leb chunk_size (length data_))) [
        | inl big ↦
            rw (big, sum_chunks)
              (>>=_assoc (sum_pairs net accum (take chunk_size data_))
                  (λ d. sum_chunks net fuel d.0 (drop chunk_size data_))
                  (λ d. sum_pairs net d.0 d.1)
                ∙ >>=_congr (sum_pairs net accum (take chunk_size data_)) _ _ (λ d.
                  sum_chunks-sum_pairs fuel d.0 (drop chunk_size data_)
                    (omega (arith, length-drop 32 data_, leb→le 32 (length data_))))
                ∙ sym (
                    sum_pairs-append 16 accum (take chunk_size data_) (drop chunk_size data_)
                      (omega (arith, length-take 32 data_, leb→le 32 (length data_))))
                ∙ ap (sum_pairs net accum) (take-append-drop 32 data_))
        | inr small ↦ rw (small, sum_chunks)
      ]

  pub sum_pairs_ok :
      (accum : ℕ) (data_ : List ℕ)
      → IsU32 (accum + word_sum data_)
      → sum_pairs net accum data_ ≡ ok (accum + pair_sum data_, odd_byte data_)
  unfolding sum_pairs pair_sum odd_byte word_sum
  sum_pairs_ok accum [] h = ground arith
  sum_pairs_ok accum (a ∷ []) h = ground arith
  sum_pairs_ok accum (a ∷ b ∷ rest) h =
      rw (net.read_u16_ok a b rest)
        (ground (arith, sum_pairs_ok (add_u32 accum (a * 256 + b)) rest))

  -- The plain loop, the last byte and the fold.
  sum_pairs-fold :
      (accum : ℕ) (data_ : List ℕ)
      → IsU32 (accum + word_sum data_)
      → (sum_pairs net accum data_ >>= λ d. ok (propagate_carries (add_odd d.0 (first d.1))))
        ≡ ok (fold (accum + word_sum data_))
  sum_pairs-fold accum data_ h =
      let total : accum + pair_sum data_ + word_sum (odd_byte data_) ≡ accum + word_sum data_ =
        omega (arith, word_sum-pairs data_) in
      let fits : IsU32 (accum + pair_sum data_ + word_sum (odd_byte data_)) = omega arith in
      rw (sum_pairs_ok accum data_ h, last_odd (accum + pair_sum data_) data_ fits, total)
        (ap ok (propagate_carries-fold _ h))

  -- `from_slice` returns the RFC 1071 checksum of up to 2 ^ 17 bytes: no index is out of bounds, and
  -- no addition overflows.
  pub from_slice-fold :
      (data_ : List ℕ)
      → All IsByte data_
      → length data_ ≤ 2 ^ 17
      → from_slice net data_ ≡ ok (fold (word_sum data_))
  unfolding from_slice
  from_slice-fold data_ h k =
      sym (
        >>=_assoc (sum_chunks net (suc (length data_)) 0 data_) (λ d. sum_pairs net d.0 d.1)
          (λ d. ok (propagate_carries (add_odd d.0 (first d.1)))))
      ∙ rw (sum_chunks-sum_pairs (suc (length data_)) 0 data_ (omega arith))
          (sum_pairs-fold 0 data_ (omega (arith, word_sum-IsU32 data_ h k)))
      ∙ ap (λ n. ok (fold n)) (zero-add (word_sum data_))

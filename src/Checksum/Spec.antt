-- ===== src/Checksum/Spec.antt =====
-- RFC 1071 without loops: the sum of the big-endian 16-bit words, a last odd byte padded by zero,
-- folded to 16 bits in ones' complement.
use rpkt.Base.{ℕ, ◌+◌, ◌-◌, ◌*◌, ◌%◌, ◌^◌, ◌≤◌, ◌==◌, if◌then◌else◌}
use rpkt.Base.{List, [], ◌∷◌, ◌++◌, length, All, ◌≡◌, arith}
use rpkt.Base.Bits.{bit_and_mask}
use rpkt.Extern.{IsByte, IsU32}
use rpkt.Checksum.{propagate_carries}

unfoldable pub word_sum : List ℕ → ℕ
word_sum [] = 0
word_sum (a ∷ []) = a * 256
word_sum (a ∷ b ∷ rest) = a * 256 + b + word_sum rest

-- The representative of `n` modulo 2 ^ 16 - 1 that is 0 only for 0.
unfoldable pub fold : ℕ → ℕ
fold n = if n == 0 then 0 else (n - 1) % 65535 + 1

pub propagate_carries-fold : (n : ℕ) → IsU32 n → propagate_carries n ≡ fold n
unfolding propagate_carries fold
propagate_carries-fold n h = ground (arith, bit_and_mask 16 n)

pub word_sum-bound :
    (data_ : List ℕ) → All IsByte data_ → 2 * word_sum data_ ≤ 65535 * (length data_ + 1)
unfolding word_sum
word_sum-bound [] h = omega arith
word_sum-bound (a ∷ []) h = omega arith
word_sum-bound (a ∷ b ∷ rest) h = omega (arith, word_sum-bound rest h.1.1)

-- 2 ^ 17 bytes do not overflow 32 bits.
pub word_sum-IsU32 :
    (data_ : List ℕ) → All IsByte data_ → length data_ ≤ 2 ^ 17 → IsU32 (word_sum data_)
word_sum-IsU32 data_ h k = omega (arith, word_sum-bound data_ h)

-- A slice is its pairs of bytes and perhaps a last byte.
unfoldable pub pair_sum : List ℕ → ℕ
pair_sum [] = 0
pair_sum (a ∷ []) = 0
pair_sum (a ∷ b ∷ rest) = a * 256 + b + pair_sum rest

unfoldable pub odd_byte : List ℕ → List ℕ
odd_byte [] = []
odd_byte (a ∷ []) = a ∷ []
odd_byte (a ∷ b ∷ rest) = odd_byte rest

pub pair_sum-le-word_sum : (data_ : List ℕ) → pair_sum data_ ≤ word_sum data_
unfolding pair_sum word_sum
pair_sum-le-word_sum [] = omega arith
pair_sum-le-word_sum (a ∷ []) = omega arith
pair_sum-le-word_sum (a ∷ b ∷ rest) = omega (arith, pair_sum-le-word_sum rest)

-- What a last odd byte is worth depends on what follows it.
pub word_sum-append :
    (xs ys : List ℕ) → word_sum (xs ++ ys) ≡ pair_sum xs + word_sum (odd_byte xs ++ ys)
unfolding word_sum pair_sum odd_byte
word_sum-append [] ys = omega arith
word_sum-append (a ∷ []) ys = omega arith
word_sum-append (a ∷ b ∷ xs) ys = omega (arith, word_sum-append xs ys)

pub word_sum-pairs : (data_ : List ℕ) → word_sum data_ ≡ pair_sum data_ + word_sum (odd_byte data_)
unfolding word_sum pair_sum odd_byte
word_sum-pairs [] = omega arith
word_sum-pairs (a ∷ []) = omega arith
word_sum-pairs (a ∷ b ∷ xs) = omega (arith, word_sum-pairs xs)

pub word_sum-le-append : (xs ys : List ℕ) → word_sum xs ≤ word_sum (xs ++ ys)
unfolding word_sum
word_sum-le-append [] ys = omega arith
word_sum-le-append (a ∷ []) [] = omega arith
word_sum-le-append (a ∷ []) (y ∷ ys) = omega arith
word_sum-le-append (a ∷ b ∷ xs) ys = omega (arith, word_sum-le-append xs ys)

-- Two sums of an even number of bytes add up.
pub word_sum-append_even :
    (n : ℕ) (xs ys : List ℕ) → length xs ≡ 2 * n → word_sum (xs ++ ys) ≡ word_sum xs + word_sum ys
unfolding word_sum
word_sum-append_even n [] ys e = omega arith
word_sum-append_even n (a ∷ []) ys e = absurd (omega arith)
word_sum-append_even n (a ∷ b ∷ xs) ys e =
    omega (arith, word_sum-append_even (n - 1) xs ys (omega arith))

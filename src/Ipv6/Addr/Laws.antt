-- ===== src/Ipv6/Addr/Laws.antt =====
-- Addresses of sixteen bytes, the words that they are made of, and IPv4 addresses inside them.
use rpkt.Base.{ℕ, zero, suc, ◌+◌, ◌*◌, ◌/◌, ◌%◌, ◌≤◌, true}
use rpkt.Base.{some}
use rpkt.Base.{
  List, [], ◌∷◌, ◌++◌, replicate, take, drop, length, length-append, length-drop, le→leb, All, ok,
}
use rpkt.Base.{◌≡◌, refl, ap, ap₂, arith}
use rpkt.Extern.{ByteOrder, IsByte}
use rpkt.Ether.Header.{same_bytes}
use rpkt.Wire.{splice}
use rpkt.Wire.Laws.{set_range_ok, slice_from_ok, copy_from_slice_ok}
use rpkt.Ipv4.Header
use rpkt.Ipv6.Addr.{
  read_words, write_words, from_parts, write_parts, from_ipv4, as_ipv4, is_ipv4_mapped,
  ipv4_mapped_prefix,
}

-- The words of an even number of bytes.
abbrev pub words_of : List ℕ → List ℕ
words_of (a ∷ b ∷ rest) = (a * 256 + b) ∷ words_of rest
words_of (a ∷ []) = []
words_of [] = []

pub same_bytes-eq : (xs ys : List ℕ) → same_bytes xs ys ≡ true → xs ≡ ys
unfolding same_bytes
same_bytes-eq [] [] e = refl
same_bytes-eq [] (y ∷ ys) e = ground arith
same_bytes-eq (x ∷ xs) [] e = ground arith
same_bytes-eq (x ∷ xs) (y ∷ ys) e =
    let both : (x ≡ y) × (same_bytes xs ys ≡ true) = ground arith in
    ap₂ (λ v vs. v ∷ vs) both.0 (same_bytes-eq xs ys both.1)

module _ (net : ByteOrder) where
  read_words_ok :
      (n : ℕ) (addr : List ℕ) → length addr ≡ n + n → read_words net addr ≡ ok (words_of addr)
  unfolding read_words
  read_words_ok n [] e = refl
  read_words_ok zero (a ∷ rest) e = absurd (omega arith)
  read_words_ok (suc n) (a ∷ []) e = absurd (omega arith)
  read_words_ok (suc n) (a ∷ b ∷ rest) e =
      rw (net.read_u16_ok a b [], read_words_ok n rest (omega arith)) refl

  write_words_ok :
      (n : ℕ) (addr behind : List ℕ)
      → length addr ≡ n + n
      → All IsByte addr
      → write_words net n (words_of addr ++ behind) ≡ ok addr
  unfolding write_words
  write_words_ok zero [] behind e h = refl
  write_words_ok zero (a ∷ rest) behind e h = absurd (omega arith)
  write_words_ok (suc n) [] behind e h = absurd (omega arith)
  write_words_ok (suc n) (a ∷ []) behind e h = absurd (omega arith)
  write_words_ok (suc n) (a ∷ b ∷ rest) behind e h =
      let high : (a * 256 + b) / 256 % 256 ≡ a = omega arith in
      let low : (a * 256 + b) % 256 ≡ b = omega arith in
      rw
        (
          net.write_u16_ok 0 0 (a * 256 + b) [],
          write_words_ok n rest behind (omega arith) h.1.1,
          high,
          low,
        )
        refl

  pub length-words_of : (n : ℕ) (addr : List ℕ) → length addr ≡ n + n → length (words_of addr) ≡ n
  length-words_of n [] e = omega arith
  length-words_of zero (a ∷ rest) e = absurd (omega arith)
  length-words_of (suc n) (a ∷ []) e = absurd (omega arith)
  length-words_of (suc n) (a ∷ b ∷ rest) e = ap suc (length-words_of n rest (omega arith))

  pub write_parts_ok :
      (addr data_ : List ℕ)
      → length addr ≡ 16
      → 8 ≤ length data_
      → write_parts net addr data_ ≡ ok (words_of addr ++ drop 8 data_)
  unfolding write_parts
  write_parts_ok addr data_ e h = rw (le→leb 8 (length data_) h, read_words_ok 8 addr e) refl

  -- For an address of sixteen bytes and an array of at least eight words, `write_parts` returns, and
  -- `from_parts` of what it has written gives the address back.
  pub from_parts-write_parts :
      (addr data_ : List ℕ)
      → length addr ≡ 16
      → All IsByte addr
      → 8 ≤ length data_
      → (words : List ℕ) × (write_parts net addr data_ ≡ ok words)
        × (from_parts net words ≡ ok addr)
        × (length words ≡ length data_)
  unfolding from_parts
  from_parts-write_parts addr data_ e h k =
      let words : List ℕ = words_of addr ++ drop 8 data_ in
      let size : length words ≡ length data_ = omega (
        arith,
        length-append (words_of addr) (drop 8 data_),
        length-drop 8 data_,
        length-words_of 8 addr e,
      ) in
      (
        words,
        write_parts_ok addr data_ e k,
        rw (le→leb 8 (length words) (omega arith)) (write_words_ok 8 addr (drop 8 data_) e h),
        size,
      )

-- `From<Ipv4Addr>` of four bytes returns sixteen bytes from which `as_ipv4` gets the four back.
pub as_ipv4-from_ipv4 :
    (ip : List ℕ)
    → length ip ≡ 4
    → (addr : List ℕ) × (from_ipv4 ip ≡ ok addr)
      × (as_ipv4 addr ≡ ok (some ip))
      × (length addr ≡ 16)
unfolding from_ipv4 as_ipv4 is_ipv4_mapped same_bytes Header.from_bytes splice
as_ipv4-from_ipv4 [] e = absurd (omega arith)
as_ipv4-from_ipv4 (a ∷ []) e = absurd (omega arith)
as_ipv4-from_ipv4 (a ∷ b ∷ []) e = absurd (omega arith)
as_ipv4-from_ipv4 (a ∷ b ∷ c ∷ []) e = absurd (omega arith)
as_ipv4-from_ipv4 (a ∷ b ∷ c ∷ d ∷ []) e =
    let addr : List ℕ = take 12 ipv4_mapped_prefix ++ (a ∷ b ∷ c ∷ d ∷ []) in
    (
      addr,
      set_range_ok ipv4_mapped_prefix 12 16 (a ∷ b ∷ c ∷ d ∷ []) (omega arith) (omega arith),
      rw
          (
            slice_from_ok addr 12 (omega arith),
            copy_from_slice_ok (replicate 4 0) (a ∷ b ∷ c ∷ d ∷ []) refl,
          )
          refl,
      refl,
    )
as_ipv4-from_ipv4 (a ∷ b ∷ c ∷ d ∷ x ∷ ip) e = absurd (omega arith)

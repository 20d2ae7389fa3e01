-- ===== src/Checksum/Field.antt =====
-- A 16-bit checksum field at an even offset of a message, and what writing it does to the sum.
use rpkt.Base.{ℕ, ◌+◌, ◌-◌, ◌*◌, ◌/◌, ◌%◌, ◌≤◌, ◌<◌, ◌==◌, if◌then◌else◌, Bool-cases, inl, inr}
use rpkt.Base.{
  List, ◌++◌, length, take, drop, take_into, take_prefix, take-all, length-take, ◌≡◌, ap, ap₂,
}
use rpkt.Base.{◌∙◌, subst, arith, All, All-append, All-take, All-drop}
use rpkt.Extern.{IsByte, IsU16}
use rpkt.Wire.{splice}
use rpkt.Wire.Laws.{drop-splice, length-splice}
use rpkt.Wire.Fields.{wire_u16}
use rpkt.Checksum.Spec.{word_sum, fold, word_sum-append_even}

-- The complement of the folded sum completes the sum.
pub fold_complement : (n : ℕ) → fold (n + (0xffff - fold n)) ≡ 0xffff
unfolding fold
fold_complement n = ground arith

-- All ones do as well as a complement of zero.
pub fold_ones : (n : ℕ) → fold n ≡ 0xffff → fold (n + 0xffff) ≡ 0xffff
unfolding fold
fold_ones n e = ground arith

-- Zero written as all ones.
abbrev pub nonzero : ℕ → ℕ
nonzero cksum = if cksum == 0 then 0xffff else cksum

pub fold-IsU16 : (n : ℕ) → IsU16 (fold n)
unfolding fold
fold-IsU16 n = ground arith

pub fold-nonzero : (n : ℕ) → fold (n + nonzero (0xffff - fold n)) ≡ 0xffff
fold-nonzero n = elim (Bool-cases ((0xffff - fold n) == 0)) [
  | inl zero_sum ↦ rw zero_sum (fold_ones n (ground (arith, fold-IsU16 n)))
  | inr other ↦ rw other (fold_complement n)
]

pub nonzero-positive : (cksum : ℕ) → 0 < nonzero cksum
nonzero-positive cksum = ground arith

pub nonzero-IsU16 : (cksum : ℕ) → IsU16 cksum → IsU16 (nonzero cksum)
nonzero-IsU16 cksum h = ground arith

-- The first `n` bytes with the word at `at` left out.
unfoldable pub around : List ℕ → ℕ → ℕ → ℕ
around y at n = word_sum (take at y) + word_sum (take (n - (at + 2)) (drop (at + 2) y))

module _ (y : List ℕ) (at n v : ℕ) (even : at % 2 ≡ 0) (lo : at + 2 ≤ n) (hi : n ≤ length y) where
  take-splice :
      take n (splice y at (wire_u16 v))
      ≡ take at y ++ (wire_u16 v ++ take (n - (at + 2)) (drop (at + 2) y))
  unfolding splice
  take-splice =
      take_into (take at y) (wire_u16 v ++ drop (at + 2) y) n (n - at)
        (omega (arith, length-take at y))
      ∙ ap (λ zs. take at y ++ zs)
          (take_into (wire_u16 v) (drop (at + 2) y) (n - at) (n - (at + 2)) (omega arith))

  pub word_sum-splice : IsU16 v → word_sum (take n (splice y at (wire_u16 v))) ≡ around y at n + v
  unfolding word_sum around
  word_sum-splice k =
      let behind : List ℕ = take (n - (at + 2)) (drop (at + 2) y) in
      let word : v / 256 % 256 * 256 + v % 256 ≡ v = omega arith in
      ap word_sum take-splice
      ∙ word_sum-append_even (at / 2) (take at y) (wire_u16 v ++ behind)
          (omega (arith, length-take at y))
      ∙ omega arith

  pub bytes-splice : All IsByte y → All IsByte (take n (splice y at (wire_u16 v)))
  unfolding splice
  bytes-splice h = All-take IsByte n _ (
      All-append IsByte (take at y) (wire_u16 v ++ drop (at + 2) y) (All-take IsByte at y h) (
        All-append IsByte (wire_u16 v) (drop (at + 2) y) (omega arith)
          (All-drop IsByte (at + 2) y h)))

pub splice-All :
    (y : List ℕ) (at v : ℕ)
    → at % 2 ≡ 0
    → at + 2 ≤ length y
    → All IsByte y
    → All IsByte (splice y at (wire_u16 v))
splice-All y at v even h bytes =
    subst (All IsByte)
      (take-all (length y) (splice y at (wire_u16 v))
        (omega (arith, length-splice y at (wire_u16 v) h)))
      (bytes-splice y at (length y) v even h (omega arith) bytes)

-- A second write over the same bytes replaces the first.
pub splice-splice :
    (y : List ℕ) (at v w : ℕ)
    → at + 2 ≤ length y
    → splice (splice y at (wire_u16 v)) at (wire_u16 w) ≡ splice y at (wire_u16 w)
splice-splice y at v w h =
    let behind : drop (at + 2) (splice y at (wire_u16 v)) ≡ drop (at + 2) y =
      subst (λ m. drop m (splice y at (wire_u16 v)) ≡ drop m y) {x = at + 2 + 0} {y = at + 2}
        (omega arith) (drop-splice y at (wire_u16 v) 0 (omega arith)) in
    unfold splice in
    ap₂ (λ xs ys. xs ++ (wire_u16 w ++ ys))
      (take_prefix at (take at y) (wire_u16 v ++ drop (at + 2) y) (omega (arith, length-take at y)))
      behind

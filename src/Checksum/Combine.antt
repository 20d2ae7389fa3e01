-- ===== src/Checksum/Combine.antt =====
-- `combine`: the checksum of blocks from the checksums of each.
use rpkt.Base.{ℕ, ◌+◌, ◌*◌, ◌/◌, ◌%◌, ◌^◌, ◌≤◌, List, [], ◌∷◌, ◌++◌, length, All}
use rpkt.Base.{◌≡◌, refl, sym, ap, ◌∙◌, arith}
use rpkt.Extern.{IsU32}
use rpkt.Checksum.{add_u32, combine_loop, combine, propagate_carries}
use rpkt.Checksum.Spec.{word_sum, fold, propagate_carries-fold, word_sum-append_even}

sum : List ℕ → ℕ
sum [] = 0
sum (n ∷ ns) = n + sum ns

abbrev pub concat : List (List ℕ) → List ℕ
concat [] = []
concat (b ∷ blocks) = b ++ concat blocks

-- The checksums of blocks.
abbrev pub checksums : List (List ℕ) → List ℕ
checksums [] = []
checksums (b ∷ blocks) = fold (word_sum b) ∷ checksums blocks

abbrev pub IsEvenBlock : List ℕ → Type 0
IsEvenBlock b = length b % 2 ≡ 0

-- A folded summand counts as much as the summand.
pub fold_add : (a n m : ℕ) → fold n ≡ fold m → fold (a + n) ≡ fold (a + m)
unfolding fold
fold_add a n m e = ground arith

pub fold-fold : (n a : ℕ) → fold (fold n + a) ≡ fold (n + a)
unfolding fold
fold-fold n a = ground arith

fold-bound : (n : ℕ) → fold n ≤ 65535
unfolding fold
fold-bound n = ground arith

combine_loop-sum :
    (accum : ℕ) (words : List ℕ)
    → IsU32 (accum + sum words)
    → combine_loop accum words ≡ accum + sum words
unfolding combine_loop sum
combine_loop-sum accum [] h = omega arith
combine_loop-sum accum (w ∷ words) h = ground (arith, combine_loop-sum (add_u32 accum w) words)

sum-bound : (blocks : List (List ℕ)) → sum (checksums blocks) ≤ length blocks * 65535
unfolding sum
sum-bound [] = omega arith
sum-bound (b ∷ blocks) = omega (arith, fold-bound (word_sum b), sum-bound blocks)

sum-fold :
    (blocks : List (List ℕ))
    → All IsEvenBlock blocks
    → fold (sum (checksums blocks)) ≡ fold (word_sum (concat blocks))
unfolding sum word_sum
sum-fold [] h = refl
sum-fold (b ∷ blocks) h =
    fold-fold (word_sum b) (sum (checksums blocks))
    ∙ fold_add (word_sum b) (sum (checksums blocks)) (word_sum (concat blocks))
        (sum-fold blocks h.1)
    ∙ ap fold (sym (word_sum-append_even (length b / 2) b (concat blocks) (omega arith)))

-- `combine` of the checksums of up to 2 ^ 16 blocks of even length is the checksum of the blocks one
-- after the other.
pub combine-checksums :
    (blocks : List (List ℕ))
    → All IsEvenBlock blocks
    → length blocks ≤ 2 ^ 16
    → combine (checksums blocks) ≡ fold (word_sum (concat blocks))
unfolding combine
combine-checksums blocks h k =
    let fits : IsU32 (0 + sum (checksums blocks)) = omega (arith, sum-bound blocks) in
    ap propagate_carries (combine_loop-sum 0 (checksums blocks) fits)
    ∙ propagate_carries-fold _ fits
    ∙ ap fold (omega arith)
    ∙ sum-fold blocks h

-- Of two checksums, it is that of the sum.
pub combine_pair : (n m : ℕ) → combine (fold n ∷ fold m ∷ []) ≡ fold (n + m)
unfolding combine sum
combine_pair n m =
    let fits : IsU32 (0 + (fold n + (fold m + 0))) = omega (arith, fold-bound n, fold-bound m) in
    ap propagate_carries (combine_loop-sum 0 (fold n ∷ fold m ∷ []) fits)
    ∙ propagate_carries-fold _ fits
    ∙ ap fold {y = fold n + fold m} (omega arith)
    ∙ fold-fold n (fold m)
    ∙ fold_add n (fold m) m
        (ap fold {y = fold m + 0} (omega arith) ∙ fold-fold m 0 ∙ ap fold (omega arith))

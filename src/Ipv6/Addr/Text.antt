-- ===== src/Ipv6/Addr/Text.antt =====
-- The text of an `Ipv6Addr`, read back.
use rpkt.Base.{ℕ, zero, suc, ◌+◌, ◌-◌, ◌*◌, ◌==◌, ==→eq, eq→==, lt→ltb, Bool-cases, inl, inr}
use rpkt.Base.{◌⊎◌, ◌<◌, ok, Option, none, some, length-append, length-replicate}
use rpkt.Base.{List, [], ◌∷◌, ◌++◌, replicate, take, drop, length, get_or, length-take, length-drop}
use rpkt.Base.{take-all, take-append-drop, append-nil, ◌≡◌, refl, sym, ap, ap₂, ◌∙◌, arith}
use rpkt.Extern.{ByteOrder}
use rpkt.Wire.Laws.{four_cells}
use rpkt.Ipv6.Addr.{is_ipv4_mapped, ipv4_mapped_prefix}
use rpkt.Ipv6.Addr.Laws.{words_of, length-words_of, write_parts_ok, same_bytes-eq}
use rpkt.Ipv6.Addr.Display.{
  Token, hex, head, head_body, tail, tail_body, step, display_words, display_mapped, display,
}
use rpkt.Ipv6.Addr.Parse.{
  in_front, groups, behind, Split, push, opened, more, split, fill, read_text,
}

groups-display_words :
    (w : ℕ) (words : List ℕ) → groups (hex w ∷ display_words tail_body words) ≡ some (w ∷ words)
unfolding display_words step
groups-display_words w [] = refl
groups-display_words w (v ∷ words) = ap (in_front w) (groups-display_words v words)

-- Behind `::` the zeros that follow are not written.
tail_words :
    (words : List ℕ)
    → (k : ℕ) × (rest : List ℕ) × (words ≡ replicate k 0 ++ rest)
      × (behind (display_words tail words) ≡ some rest)
unfolding display_words step
tail_words [] = (0, [], refl, refl)
tail_words (w ∷ words) = elim (Bool-cases (w == 0)) [
  | inl e ↦
      let (k, rest, same, read) = tail_words words in
      (suc k, rest, ap₂ (λ v vs. v ∷ vs) (==→eq w 0 e) same, rw e read)
  | inr e ↦ (0, w ∷ words, refl, rw e (groups-display_words w words))
]

-- The words are all there, or some zeros among them are `::`.
abbrev Reads : List ℕ → Option Split → Type 0
Reads words o =
    (o ≡ some (words, none))
    ⊎ ((front : List ℕ) × (k : ℕ) × (rest : List ℕ) × (words ≡ front ++ replicate (suc k) 0 ++ rest)
        × (o ≡ some (front, some rest)))

push-Reads :
    (w : ℕ) (words : List ℕ) (o : Option Split) → Reads words o → Reads (w ∷ words) (push w o)
push-Reads w words o (inl e) = inl (ap (push w) e)
push-Reads w words o (inr (front, k, rest, same, e)) =
    inr (w ∷ front, k, rest, ap (λ vs. w ∷ vs) same, ap (push w) e)

opened-Reads :
    (w : ℕ) (words : List ℕ)
    → w ≡ 0
    → Reads (w ∷ words) (opened (behind (display_words tail words)))
opened-Reads w words e =
    let (k, rest, same, read) = tail_words words in
    inr ([], k, rest, ap₂ (λ v vs. v ∷ vs) e same, ap opened read)

more-Reads : (words : List ℕ) → Reads words (more (display_words head_body words))
unfolding display_words step
more-Reads [] = inl refl
more-Reads (w ∷ words) = elim (Bool-cases (w == 0)) [
  | inl e ↦ rw e (opened-Reads w words (==→eq w 0 e))
  | inr e ↦ rw e (push-Reads w words _ (more-Reads words))
]

split-Reads : (w : ℕ) (words : List ℕ) → Reads (w ∷ words) (split (display_words head (w ∷ words)))
unfolding display_words step
split-Reads w words = elim (Bool-cases (w == 0)) [
  | inl e ↦ rw e (opened-Reads w words (==→eq w 0 e))
  | inr e ↦ rw e (push-Reads w words _ (more-Reads words))
]

fill-Reads :
    (words : List ℕ) (o : Option Split) → Reads words o → fill (length words) o ≡ some words
fill-Reads words o (inl e) = rw (e, eq→== (length words) (length words) refl) refl
fill-Reads words o (inr (front, k, rest, same, e)) =
    let zeros : List ℕ = replicate (suc k) 0 in
    let given : ℕ = length front + length rest in
    let size : length words ≡ given + suc k = omega (
      arith,
      ap length same,
      length-append (front ++ zeros) rest,
      length-append front zeros,
      length-replicate {A = ℕ} (suc k) 0,
    ) in
    rw (e, lt→ltb given (length words) (omega arith))
      (ap (λ m. some (front ++ replicate m 0 ++ rest)) {x = length words - given} {y = suc k}
          (omega arith)
        ∙ ap some (sym same))

read_text-display_words :
    (words : List ℕ)
    → 0 < length words
    → read_text (length words) (display_words head words) ≡ some words
unfolding read_text
read_text-display_words [] h = absurd (omega arith)
read_text-display_words (w ∷ words) h = fill-Reads (w ∷ words) _ (split-Reads w words)

words_of-append :
    (n : ℕ) (xs ys : List ℕ) → length xs ≡ n + n → words_of (xs ++ ys) ≡ words_of xs ++ words_of ys
words_of-append n [] ys e = refl
words_of-append zero (a ∷ xs) ys e = absurd (omega arith)
words_of-append (suc n) (a ∷ []) ys e = absurd (omega arith)
words_of-append (suc n) (a ∷ b ∷ xs) ys e =
    ap (λ ws. (a * 256 + b) ∷ ws) (words_of-append n xs ys (omega arith))

-- The words of an address with the prefix of an IPv4 address.
mapped_words :
    (addr : List ℕ)
    → length addr ≡ 16
    → take 12 addr ≡ take 12 ipv4_mapped_prefix
    → words_of addr
      ≡ 0
        ∷ 0
        ∷ 0
        ∷ 0
        ∷ 0
        ∷ 0xffff
        ∷ (get_or addr 12 0 * 256 + get_or addr 13 0)
        ∷ (get_or addr 14 0 * 256 + get_or addr 15 0)
        ∷ []
mapped_words addr e prefix =
    ap words_of (sym (take-append-drop 12 addr))
    ∙ words_of-append 6 (take 12 addr) (drop 12 addr) (omega (arith, length-take 12 addr))
    ∙ ap₂ (λ xs ys. words_of xs ++ words_of ys) prefix
        (sym (take-all 4 (drop 12 addr) (omega (arith, length-drop 12 addr)))
          ∙ four_cells addr 12 (omega arith))

-- `Display` of an address of sixteen bytes returns a text that the reader of RFC 4291 takes for the
-- eight words of the address.
pub read_text-display :
    (net : ByteOrder) (addr : List ℕ)
    → length addr ≡ 16
    → (text : List Token) × (display net addr ≡ ok text) × (read_text 8 text ≡ some (words_of addr))
unfolding display is_ipv4_mapped read_text
read_text-display net addr e = elim (Bool-cases (is_ipv4_mapped addr)) [
  | inl is_mapped ↦ (
    display_mapped (get_or addr 12 0) (get_or addr 13 0) (get_or addr 14 0) (get_or addr 15 0),
    rw is_mapped refl,
    ap some (
        sym (
          mapped_words addr e
            (same_bytes-eq (take 12 addr) (take 12 ipv4_mapped_prefix) is_mapped))),
  )
  | inr other ↦
      let words : List ℕ = words_of addr in
      let size : length words ≡ 8 = length-words_of net 8 addr e in
      (
        display_words head words,
        rw (other, write_parts_ok net addr (replicate 8 0) e (omega arith), append-nil words) refl,
        ap (λ n. read_text n (display_words head words)) (sym size)
            ∙ read_text-display_words words (omega arith),
      )
]

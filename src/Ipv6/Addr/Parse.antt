-- ===== src/Ipv6/Addr/Parse.antt =====
-- A reader of the text of an IPv6 address, by RFC 4291, section 2.2: words in hexadecimal with a colon
-- between them, where `::` may stand once for one or more words that are 0, and where the last two words
-- may be four decimal numbers with dots between them. It knows nothing of `Display`.
use rpkt.Base.{ℕ, ◌+◌, ◌-◌, ◌*◌, ltb, ◌==◌, if◌then◌else◌, List, [], ◌∷◌, ◌++◌, replicate, length}
use rpkt.Base.{Option, none, some}
use rpkt.Ipv6.Addr.Display.{Token, colon, dot, hex, decimal}

abbrev pub in_front : ℕ → Option (List ℕ) → Option (List ℕ)
in_front w none = none
in_front w (some words) = some (w ∷ words)

abbrev pub quad : List Token → Option (List ℕ)
quad (decimal a ∷ dot ∷ decimal b ∷ dot ∷ decimal c ∷ dot ∷ decimal d ∷ []) =
    some ((a * 256 + b) ∷ (c * 256 + d) ∷ [])
quad _ = none

-- One or more words, to the end of the text.
abbrev pub groups : List Token → Option (List ℕ)
groups (hex w ∷ []) = some (w ∷ [])
groups (hex w ∷ colon ∷ ts) = in_front w (groups ts)
groups ts = quad ts

-- Behind `::` the text may end.
abbrev pub behind : List Token → Option (List ℕ)
behind [] = some []
behind (t ∷ ts) = groups (t ∷ ts)

-- The words in front of `::`, and those behind it if it is there.
abbrev pub Split : Type 0
Split = List ℕ × Option (List ℕ)

abbrev pub push : ℕ → Option Split → Option Split
push w none = none
push w (some (words, rest)) = some (w ∷ words, rest)

abbrev pub opened : Option (List ℕ) → Option Split
opened none = none
opened (some words) = some ([], some words)

abbrev ended : Option (List ℕ) → Option Split
ended none = none
ended (some words) = some (words, none)

-- Behind a word that `::` may still follow.
abbrev pub more : List Token → Option Split
more [] = some ([], none)
more (colon ∷ colon ∷ ts) = opened (behind ts)
more (colon ∷ hex w ∷ ts) = push w (more ts)
more (colon ∷ ts) = ended (quad ts)
more _ = none

abbrev pub split : List Token → Option Split
split (colon ∷ colon ∷ ts) = opened (behind ts)
split (hex w ∷ ts) = push w (more ts)
split _ = none

-- `n` words: all of them are there, or some are missing and `::` stands for zeros in their place.
abbrev pub fill : ℕ → Option Split → Option (List ℕ)
fill n none = none
fill n (some (words, none)) = if length words == n then some words else none
fill n (some (words, some rest)) =
    let given : ℕ = length words + length rest in
    if ltb given n then some (words ++ replicate (n - given) 0 ++ rest) else none

unfoldable pub read_text : ℕ → List Token → Option (List ℕ)
read_text n ts = fill n (split ts)

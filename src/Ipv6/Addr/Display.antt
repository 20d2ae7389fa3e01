-- ===== src/Ipv6/Addr/Display.antt =====
-- `fmt::Display` of `Ipv6Addr`: what is written, as a list of the signs and numbers of the text in
-- their order. A number is its value: `{:x}` writes it in hexadecimal, `{}` in decimal.
use rpkt.Base.{ℕ, ◌==◌, if◌then◌else◌, List, [], ◌∷◌, ◌++◌, get_or, replicate, Outcome, ok, ◌>>=◌}
use rpkt.Extern.{ByteOrder}
use rpkt.Ipv6.Addr.{is_ipv4_mapped, write_parts}

-- `:`, `.`, `{:x}` and `{}`.
pub data Token : Type 0 where
  colon dot : Token
  hex decimal : ℕ → Token

pub data State : Type 0 where
  head : State
  head_body : State
  tail : State
  tail_body : State

-- One round of the loop: what it writes, and the new state.
unfoldable pub step : ℕ → State → List Token × State
step w head = if w == 0 then (colon ∷ colon ∷ [], tail) else (hex w ∷ [], head_body)
step w head_body = if w == 0 then (colon ∷ colon ∷ [], tail) else (colon ∷ hex w ∷ [], head_body)
step w tail = if w == 0 then ([], tail) else (hex w ∷ [], tail_body)
step w tail_body = (colon ∷ hex w ∷ [], tail_body)

unfoldable pub display_words : State → List ℕ → List Token
display_words state [] = []
display_words state (w ∷ words) = (step w state).0 ++ display_words (step w state).1 words

-- `::ffff:{}.{}.{}.{}`
abbrev pub display_mapped : ℕ → ℕ → ℕ → ℕ → List Token
display_mapped a b c d =
    colon
    ∷ colon
    ∷ hex 0xffff
    ∷ colon
    ∷ decimal a
    ∷ dot
    ∷ decimal b
    ∷ dot
    ∷ decimal c
    ∷ dot
    ∷ decimal d
    ∷ []

module _ (net : ByteOrder) where
  unfoldable pub display : List ℕ → Outcome (List Token)
  display addr =
      if is_ipv4_mapped addr
      then ok (
          display_mapped (get_or addr 12 0) (get_or addr 13 0) (get_or addr 14 0)
            (get_or addr 15 0))
      else (write_parts net addr (replicate 8 0) >>= λ words. ok (display_words head words))

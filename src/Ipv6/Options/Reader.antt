-- ===== src/Ipv6/Options/Reader.antt =====
-- `Ipv6OptionIter` on any bytes: every option takes bytes, so that the check of all bytes ends.
use rpkt.Base.{ℕ, suc, ◌+◌, ◌≤◌, ◌<◌, ltb, ◌==◌, Bool, true, false, Bool-cases}
use rpkt.Base.{
  List, [], ◌∷◌, Option, none, some, Outcome, ok, length, take, drop, get_or, ◌≡◌, refl, ◌⊎◌, inl,
  inr, arith, length-drop,
}
use rpkt.Wire.Laws.{slice_from_ok, slice_to_ok, byte_at_ok}
use rpkt.OptionLoop
use rpkt.Ipv6.Options.{
  Ipv6Option, Ipv6OptionIter, pad0, padn, generic, from_option_bytes, found, read_long, read_option,
  next, check_option_bytes,
}

abbrev Read : Type 0
Read = Outcome (Option Ipv6Option × Ipv6OptionIter)

pub found_ok :
    (buf : List ℕ) (n : ℕ) (opt : Ipv6Option)
    → n ≤ length buf
    → found buf n opt ≡ ok (some opt, from_option_bytes (drop n buf))
found_ok buf n opt h = rw (slice_from_ok buf n h)

abbrev Takes : List ℕ → Read → Type 0
Takes buf o =
    (s : Option Ipv6Option × Ipv6OptionIter) × (o ≡ ok s)
    × ((s.0 ≡ none) ⊎ (length s.1.buf < length buf))

found-Takes :
    (buf : List ℕ) (n : ℕ) (opt : Ipv6Option) {o : Read}
    → o ≡ ok (some opt, from_option_bytes (drop (suc n) buf))
    → suc n ≤ length buf
    → Takes buf o
found-Takes buf n opt e h = (_, e, inr (omega (arith, length-drop (suc n) buf)))

read_long-Takes :
    (kind : ℕ) (buf : List ℕ) (data_len : ℕ) → Takes buf (read_long kind buf (data_len + 2))
unfolding read_long
read_long-Takes kind buf data_len = elim (Bool-cases (kind == 1)) [
  | inl pad ↦ rw pad (elim (Bool-cases (ltb (length buf) (data_len + 2))) [
    | inl short ↦ rw short (_, refl, inl refl)
    | inr long ↦
        let h : data_len + 2 ≤ length buf = ground arith in
        rw long (
          (
            _,
            found_ok buf (data_len + 2) padn h,
            inr (omega (arith, length-drop (data_len + 2) buf)),
          ))
  ])
  | inr other ↦ rw other (elim (Bool-cases (ltb (length buf) (data_len + 2))) [
    | inl short ↦ rw short (_, refl, inl refl)
    | inr long ↦
        let h : data_len + 2 ≤ length buf = ground arith in
        rw (long, slice_to_ok buf (data_len + 2) h)
          ((
            _,
            found_ok buf (data_len + 2) (generic (take (data_len + 2) buf)) h,
            inr (omega (arith, length-drop (data_len + 2) buf)),
          ))
  ])
]

-- `next` never panics, whatever the bytes are, and gives no option or takes bytes.
pub next-Takes :
    (it : Ipv6OptionIter)
    → (s : Option Ipv6Option × Ipv6OptionIter) × (next it ≡ ok s)
      × ((s.0 ≡ none) ⊎ (length s.1.buf < length it.buf))
unfolding next read_option
next-Takes it = at it.buf it.valid
  where
    at : (buf : List ℕ) (valid : Bool) → Takes buf (next (record { buf = buf; valid = valid }))
    at buf false = (_, refl, inl refl)
    at [] true = (_, refl, inl refl)
    at (x ∷ buf) true =
        let nonempty : (length (x ∷ buf) == 0) ≡ false = ground arith in
        rw (nonempty, byte_at_ok (x ∷ buf) 0 (omega arith))
          (elim (Bool-cases (x == 0)) [
            | inl pad ↦ rw pad (
                (
                  _,
                  found_ok (x ∷ buf) 1 pad0 (omega arith),
                  inr (omega (arith, length-drop 1 (x ∷ buf))),
                ))
            | inr long ↦ rw long (elim (Bool-cases (ltb (length (x ∷ buf)) 2)) [
              | inl short ↦ rw short (_, refl, inl refl)
              | inr enough ↦
                  rw (enough, byte_at_ok (x ∷ buf) 1 (ground arith))
                    (read_long-Takes x (x ∷ buf) (get_or (x ∷ buf) 1 0))
            ])
          ])

-- `check_option_bytes` returns, whatever the bytes are, within one round more than there are bytes.
pub check_option_bytes_total :
    (fuel : ℕ) (buf : List ℕ)
    → length buf < fuel
    → (b : Bool) × (check_option_bytes fuel buf ≡ ok (some b))
check_option_bytes_total fuel buf h =
    OptionLoop.check_loop-Returns next (λ it. it.valid) (λ it. length it.buf) next-Takes fuel
      (from_option_bytes buf) h

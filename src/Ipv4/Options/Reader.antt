-- ===== src/Ipv4/Options/Reader.antt =====
-- `Ipv4OptionIter` and `Ipv4OptionIterMut` on any bytes: what each call takes from the buffer, and where
-- the two differ.
use rpkt.Base.{
  ℕ, zero, suc, ◌≤◌, ◌<◌, ltb, ◌==◌, ◌||◌, not, Bool, true, false, Bool-cases, if◌then◌else◌,
}
use rpkt.Base.{
  List, [], ◌∷◌, Option, none, some, Outcome, ok, ◌>>=◌, length, take, drop, get_or, ◌≡◌, ◌≢◌, refl,
}
use rpkt.Base.{◌⊎◌, inl, inr, arith, length-drop}
use rpkt.Wire.{slice_to}
use rpkt.Wire.Laws.{slice_from_ok, slice_to_ok, byte_at_ok}
use rpkt.OptionLoop
use rpkt.Ipv4.Options.{
  Ipv4Option, Ipv4OptionIter, eol, nop, ts, rr, ra, unknown, from_option_bytes, invalid, found,
}
use rpkt.Ipv4.Options.{ts_len_valid, ts_pointer_valid, rr_len_valid, rr_pointer_valid}
use rpkt.Ipv4.Options.{
  read_ts, read_rr, read_ra, read_unknown, read_long, read_option, next_with, next,
  check_option_bytes,
}

abbrev Read : Type 0
Read = Outcome (Option Ipv4Option × Ipv4OptionIter)

-- A reader refuses the bytes, or takes `n` of them for an option.
abbrev pub Reads : ℕ → List ℕ → Read → Type 0
Reads n buf o =
    (o ≡ invalid buf)
    ⊎ ((opt : Ipv4Option) × (o ≡ ok (some opt, from_option_bytes (drop n buf))) × (n ≤ length buf))

pub found_ok :
    (buf : List ℕ) (n : ℕ) (opt : Ipv4Option)
    → n ≤ length buf
    → found buf n opt ≡ ok (some opt, from_option_bytes (drop n buf))
found_ok buf n opt h = rw (slice_from_ok buf n h)

-- The first `n` bytes, as an option.
pub prefix_ok :
    (buf : List ℕ) (n : ℕ) (make : List ℕ → Ipv4Option)
    → n ≤ length buf
    → (slice_to buf n >>= λ bytes. found buf n (make bytes))
      ≡ ok (some (make (take n buf)), from_option_bytes (drop n buf))
prefix_ok buf n make h = rw (slice_to_ok buf n h, found_ok buf n (make (take n buf)) h)

module _ (buf : List ℕ) (opt_len : ℕ) where
  read_ts-Reads : Reads opt_len buf (read_ts buf opt_len)
  unfolding read_ts
  read_ts-Reads = elim (Bool-cases (not (ts_len_valid opt_len) || ltb (length buf) opt_len)) [
    | inl bad ↦ rw bad (inl refl)
    | inr good ↦
        let h : opt_len ≤ length buf = ground arith in
        let h4 : 4 ≤ opt_len = ground arith in
        rw (good, byte_at_ok buf 2 (omega arith))
          (elim (Bool-cases (not (ts_pointer_valid (get_or buf 2 0)))) [
            | inl bad ↦ rw bad (inl refl)
            | inr fine ↦ rw fine (inr (ts (take opt_len buf), prefix_ok buf opt_len ts h, h))
          ])
  ]

  read_rr-Reads : Reads opt_len buf (read_rr buf opt_len)
  unfolding read_rr
  read_rr-Reads = elim (Bool-cases (not (rr_len_valid opt_len) || ltb (length buf) opt_len)) [
    | inl bad ↦ rw bad (inl refl)
    | inr good ↦
        let h : opt_len ≤ length buf = ground arith in
        let h3 : 3 ≤ opt_len = ground arith in
        rw (good, byte_at_ok buf 2 (omega arith))
          (elim (Bool-cases (not (rr_pointer_valid (get_or buf 2 0)))) [
            | inl bad ↦ rw bad (inl refl)
            | inr fine ↦ rw fine (inr (rr (take opt_len buf), prefix_ok buf opt_len rr h, h))
          ])
  ]

  read_ra-Reads : Reads opt_len buf (read_ra buf opt_len)
  unfolding read_ra
  read_ra-Reads = elim (Bool-cases (not (opt_len == 4) || ltb (length buf) 4)) [
    | inl bad ↦ rw bad (inl refl)
    | inr good ↦
        let e : opt_len ≡ 4 = ground arith in
        let h : 4 ≤ length buf = ground arith in
        rw (good, e) (inr (ra (take 4 buf), prefix_ok buf 4 ra h, h))
  ]

  read_unknown-Reads : Reads opt_len buf (read_unknown buf opt_len)
  unfolding read_unknown
  read_unknown-Reads = elim (Bool-cases (ltb (length buf) opt_len)) [
    | inl bad ↦ rw bad (inl refl)
    | inr good ↦
        let h : opt_len ≤ length buf = ground arith in
        rw good (inr (unknown (take opt_len buf), prefix_ok buf opt_len unknown h, h))
  ]

  choose :
      {o p : Read} (b : Bool)
      → Reads opt_len buf o
      → Reads opt_len buf p
      → Reads opt_len buf (if b then o else p)
  choose true r s = r
  choose false r s = s

  read_long-Reads : (opt_type : ℕ) → Reads opt_len buf (read_long read_unknown opt_type buf opt_len)
  unfolding read_long
  read_long-Reads opt_type = choose (opt_type == 68) read_ts-Reads (
      choose (opt_type == 7) read_rr-Reads
        (choose (opt_type == 148) read_ra-Reads read_unknown-Reads))

abbrev pub size : Ipv4OptionIter → ℕ
size it = length it.buf

abbrev iter : List ℕ → Bool → Ipv4OptionIter
iter buf valid = record { buf = buf; valid = valid }

abbrev pub Makes : Ipv4OptionIter → Read → Type 0
Makes = OptionLoop.Makes next (λ it. it.valid) size

Reads-Makes : (n : ℕ) (buf : List ℕ) {o : Read} → Reads n buf o → Makes (from_option_bytes buf) o
Reads-Makes n buf (inl e) = (_, e, inl refl)
Reads-Makes zero buf (inr (opt, e, h)) = (_, e, inr (inr refl))
Reads-Makes (suc n) buf (inr (opt, e, h)) =
    (_, e, inr (inl (omega (arith, length-drop (suc n) buf))))

read_option-Makes :
    (opt_type : ℕ) (buf : List ℕ)
    → 0 < length buf
    → Makes (from_option_bytes buf) (read_option read_unknown opt_type buf)
unfolding read_option
read_option-Makes opt_type buf h = elim (Bool-cases (opt_type == 0)) [
  | inl eol_type ↦
      let it : Ipv4OptionIter = iter (drop 1 buf) (not (ltb 0 (length (drop 1 buf)))) in
      let shorter : length (drop 1 buf) < length buf = omega (arith, length-drop 1 buf) in
      rw eol_type ((some eol, it), rw (slice_from_ok buf 1 h), inr (inl shorter))
  | inr other ↦ rw other (elim (Bool-cases (opt_type == 1)) [
    | inl is_nop ↦ rw is_nop (Reads-Makes 1 buf (inr (nop, found_ok buf 1 nop h, h)))
    | inr long ↦ rw long (elim (Bool-cases (ltb (length buf) 2)) [
      | inl short ↦ rw short (Reads-Makes 0 buf (inl refl))
      | inr enough ↦
          rw (enough, byte_at_ok buf 1 (ground arith))
            (Reads-Makes _ buf (read_long-Reads buf (get_or buf 1 0) opt_type))
    ])
  ])
]

-- `next` of the option reader never panics, whatever the bytes are. It gives no option, or the rest is
-- shorter, or it has read an option of length 0 and is the same iterator as before.
pub next-Makes :
    (it : Ipv4OptionIter)
    → (s : Option Ipv4Option × Ipv4OptionIter) × (next it ≡ ok s)
      × ((s.0 ≡ none) ⊎ ((length s.1.buf < length it.buf) ⊎ (s.1 ≡ it)))
unfolding next_with
next-Makes it = at it.buf it.valid
  where
    at : (buf : List ℕ) (valid : Bool) → Makes (iter buf valid) (next (iter buf valid))
    at buf false = (_, refl, inl refl)
    at [] true = (_, refl, inl refl)
    at (x ∷ buf) true =
        let nonempty : (length (x ∷ buf) == 0) ≡ false = ground arith in
        rw (nonempty, byte_at_ok (x ∷ buf) 0 (omega arith))
          (read_option-Makes x (x ∷ buf) (omega arith))

-- `check_option_bytes` returns within one round more than there are bytes, or it never returns.
pub check_option_bytes_ends :
    (fuel : ℕ) (buf : List ℕ)
    → length buf < fuel
    → ((b : Bool) × (check_option_bytes fuel buf ≡ ok (some b)))
      ⊎ ((n : ℕ) → check_option_bytes n buf ≡ ok none)
check_option_bytes_ends fuel buf h =
    OptionLoop.check_loop-Decides next (λ it. it.valid) size next-Makes fuel (from_option_bytes buf)
      h

-- Bytes that start with an option of an unknown type and length 0 are read for ever, whatever follows
-- them: `check_option_bytes` does not return.
pub unknown_stalls :
    (kind : ℕ) (rest : List ℕ)
    → 1 < kind
    → kind ≢ 7
    → kind ≢ 68
    → kind ≢ 148
    → (n : ℕ) → check_option_bytes n (kind ∷ 0 ∷ rest) ≡ ok none
unfolding next_with read_option read_long read_unknown
unknown_stalls kind rest h ne7 ne68 ne148 n =
    let buf : List ℕ = kind ∷ 0 ∷ rest in
    OptionLoop.stalled next (λ it. it.valid) size (from_option_bytes buf) (unknown [])
      (ground (
        arith,
        byte_at_ok buf 0 (omega arith),
        byte_at_ok buf 1 (omega arith),
        slice_to_ok buf 0 (omega arith),
        found_ok buf 0 (unknown []) (omega arith),
      ))
      n

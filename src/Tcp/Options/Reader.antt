-- ===== src/Tcp/Options/Reader.antt =====
-- `TcpOptionIter` on any bytes: no panic, and what each call takes from the buffer.
use rpkt.Base.{ℕ, zero, suc, ◌+◌, ◌≤◌, ◌<◌, ltb, ◌==◌, ◌||◌, not, Bool, true, false, Bool-cases}
use rpkt.Base.{
  List, [], ◌∷◌, Option, none, some, Outcome, ok, length, take, drop, get_or, ◌≡◌, ◌≢◌, refl, ◌*◌,
  if◌then◌else◌,
}
use rpkt.Base.{◌⊎◌, inl, inr, arith, length-drop}
use rpkt.OptionLoop
use rpkt.Extern.{ByteOrder}
use rpkt.Wire.Laws.{slice_ok, slice_from_ok, slice_to_ok, byte_at_ok, field_u16_ok, field_u32_ok}
use rpkt.Tcp.Options.{
  TcpOption, TcpOptionIter, eol, nop, sack_perm, mss, wsopt, sack, fo, unknown, ts,
}
use rpkt.Tcp.Options.{from_option_bytes, invalid, found, sack_len_valid}
use rpkt.Tcp.Options.{
  read_mss, read_wsopt, read_sack_perm, read_sack, read_ts, read_fo, read_unknown,
}
use rpkt.Tcp.Options.{read_long, read_option, next, check_option_bytes}

-- A reader refuses the bytes, or takes `n` of them for an option.
abbrev pub Reads : ℕ → List ℕ → Outcome (Option TcpOption × TcpOptionIter) → Type 0
Reads n buf o =
    (o ≡ invalid buf)
    ⊎ ((opt : TcpOption) × (o ≡ ok (some opt, from_option_bytes (drop n buf))) × (n ≤ length buf))

pub found_ok :
    (buf : List ℕ) (n : ℕ) (opt : TcpOption)
    → n ≤ length buf
    → found buf n opt ≡ ok (some opt, from_option_bytes (drop n buf))
found_ok buf n opt h = rw (slice_from_ok buf n h)

-- The test of an option of fixed length `n`.
fixed_len :
    (opt_len n len : ℕ) → (not (opt_len == n) || ltb len n) ≡ false → (opt_len ≡ n) × (n ≤ len)
fixed_len opt_len n len h = ground arith

abbrev u16_at : List ℕ → ℕ → ℕ
u16_at buf at = get_or buf at 0 * 256 + get_or buf (at + 1) 0

abbrev u32_at : List ℕ → ℕ → ℕ
u32_at buf at =
    ((get_or buf at 0 * 256 + get_or buf (at + 1) 0) * 256 + get_or buf (at + 2) 0) * 256
    + get_or buf (at + 3) 0

module _ (net : ByteOrder) (buf : List ℕ) (opt_len : ℕ) where
  read_mss-Reads : Reads opt_len buf (read_mss net buf opt_len)
  unfolding read_mss
  read_mss-Reads = elim (Bool-cases (not (opt_len == 4) || ltb (length buf) 4)) [
    | inl bad ↦ rw bad (inl refl)
    | inr good ↦
        let (e, h) = fixed_len opt_len 4 (length buf) good in
        let o : TcpOption = mss (u16_at buf 2) in
        rw (good, e) (inr (o, rw (field_u16_ok net 2 buf h, found_ok buf 4 o h), h))
  ]

  read_wsopt-Reads : Reads opt_len buf (read_wsopt net buf opt_len)
  unfolding read_wsopt
  read_wsopt-Reads = elim (Bool-cases (not (opt_len == 3) || ltb (length buf) 3)) [
    | inl bad ↦ rw bad (inl refl)
    | inr good ↦
        let (e, h) = fixed_len opt_len 3 (length buf) good in
        let o : TcpOption = wsopt (get_or buf 2 0) in
        rw (good, e) (inr (o, rw (byte_at_ok buf 2 h, found_ok buf 3 o h), h))
  ]

  read_sack_perm-Reads : Reads opt_len buf (read_sack_perm net buf opt_len)
  unfolding read_sack_perm
  read_sack_perm-Reads = elim (Bool-cases (not (opt_len == 2) || ltb (length buf) 2)) [
    | inl bad ↦ rw bad (inl refl)
    | inr good ↦
        let (e, h) = fixed_len opt_len 2 (length buf) good in
        let o : TcpOption = sack_perm in rw (good, e) (inr (o, rw (found_ok buf 2 o h), h))
  ]

  read_ts-Reads : Reads opt_len buf (read_ts net buf opt_len)
  unfolding read_ts
  read_ts-Reads = elim (Bool-cases (not (opt_len == 10) || ltb (length buf) 10)) [
    | inl bad ↦ rw bad (inl refl)
    | inr good ↦
        let (e, h) = fixed_len opt_len 10 (length buf) good in
        let o : TcpOption = ts (u32_at buf 2) (u32_at buf 6) in
        rw (good, e)
          (inr (
            o,
            rw (
              field_u32_ok net 2 buf (omega arith),
              field_u32_ok net 6 buf h,
              found_ok buf 10 o h,
            ),
            h,
          ))
  ]

  read_fo-Reads : Reads opt_len buf (read_fo net buf opt_len)
  unfolding read_fo
  read_fo-Reads = elim (Bool-cases (not (opt_len == 18) || ltb (length buf) 18)) [
    | inl bad ↦ rw bad (inl refl)
    | inr good ↦
        let (e, h) = fixed_len opt_len 18 (length buf) good in
        let o : TcpOption = fo (take 16 (drop 2 buf)) in
        rw (good, e) (inr (o, rw (slice_ok buf 2 18 (omega arith) h, found_ok buf 18 o h), h))
  ]

  read_sack-Reads : Reads opt_len buf (read_sack net buf opt_len)
  unfolding read_sack
  read_sack-Reads = elim (Bool-cases (not (sack_len_valid opt_len) || ltb (length buf) opt_len)) [
    | inl bad ↦ rw bad (inl refl)
    | inr good ↦
        let h : opt_len ≤ length buf = ground arith in
        let o : TcpOption = sack (take opt_len buf) in
        rw good (inr (o, rw (slice_to_ok buf opt_len h, found_ok buf opt_len o h), h))
  ]

  read_unknown-Reads : Reads opt_len buf (read_unknown net buf opt_len)
  unfolding read_unknown
  read_unknown-Reads = elim (Bool-cases (ltb (length buf) opt_len)) [
    | inl bad ↦ rw bad (inl refl)
    | inr good ↦
        let h : opt_len ≤ length buf = ground arith in
        let o : TcpOption = unknown (take opt_len buf) in
        rw good (inr (o, rw (slice_to_ok buf opt_len h, found_ok buf opt_len o h), h))
  ]

  choose :
      {o p : Outcome (Option TcpOption × TcpOptionIter)} (b : Bool)
      → Reads opt_len buf o
      → Reads opt_len buf p
      → Reads opt_len buf (if b then o else p)
  choose true r s = r
  choose false r s = s

  -- An option with a length byte takes as many bytes as that byte says.
  pub read_long-Reads : (opt_type : ℕ) → Reads opt_len buf (read_long net opt_type buf opt_len)
  unfolding read_long
  read_long-Reads opt_type = choose (opt_type == 2) read_mss-Reads (
      choose (opt_type == 3) read_wsopt-Reads (
        choose (opt_type == 4) read_sack_perm-Reads (
          choose (opt_type == 5) read_sack-Reads (
            choose (opt_type == 8) read_ts-Reads
              (choose (opt_type == 34) read_fo-Reads read_unknown-Reads)))))

-- What one call of `next` does: it returns, and it gives nothing, or shortens the buffer, or has read
-- an option of length 0 and leaves the iterator as it is.
abbrev pub Progress : TcpOptionIter → Option TcpOption × TcpOptionIter → Type 0
Progress it s =
    (length s.1.buf ≤ length it.buf)
    × ((s.0 ≡ none) ⊎ ((length s.1.buf < length it.buf) ⊎ (s.1 ≡ it)))

abbrev Makes : TcpOptionIter → Outcome (Option TcpOption × TcpOptionIter) → Type 0
Makes it o = (s : Option TcpOption × TcpOptionIter) × (o ≡ ok s) × Progress it s

Reads-Makes :
    (n : ℕ) (buf : List ℕ) {o : Outcome (Option TcpOption × TcpOptionIter)}
    → Reads n buf o
    → Makes (from_option_bytes buf) o
Reads-Makes n buf (inl e) = (_, e, (omega arith, inl refl))
Reads-Makes zero buf (inr (opt, e, h)) = (_, e, (omega arith, inr (inr refl)))
Reads-Makes (suc n) buf (inr (opt, e, h)) = (
  _,
  e,
  (omega (arith, length-drop (suc n) buf), inr (inl (omega (arith, length-drop (suc n) buf)))),
)

abbrev iter : List ℕ → Bool → TcpOptionIter
iter buf valid = record { buf = buf; valid = valid }

module _ (net : ByteOrder) where
  read_option-Makes :
      (opt_type : ℕ) (buf : List ℕ)
      → 0 < length buf
      → Makes (from_option_bytes buf) (read_option net opt_type buf)
  unfolding read_option
  read_option-Makes opt_type buf h = elim (Bool-cases (opt_type == 0)) [
    | inl eol_type ↦
        let it : TcpOptionIter = record {
          buf = drop 1 buf;
          valid = not (ltb 0 (length (drop 1 buf)));
        } in
        let shorter : length (drop 1 buf) < length buf = omega (arith, length-drop 1 buf) in
        rw eol_type ((some eol, it), rw (slice_from_ok buf 1 h), (omega arith, inr (inl shorter)))
    | inr other ↦ rw other (elim (Bool-cases (opt_type == 1)) [
      | inl nop_type ↦ rw nop_type (Reads-Makes 1 buf (inr (nop, found_ok buf 1 nop h, h)))
      | inr long ↦ rw long (elim (Bool-cases (ltb (length buf) 2)) [
        | inl short ↦ rw short (Reads-Makes 0 buf (inl refl))
        | inr enough ↦
            let h2 : 1 < length buf = ground arith in
            rw (enough, byte_at_ok buf 1 h2)
              (Reads-Makes _ buf (read_long-Reads net buf (get_or buf 1 0) opt_type))
      ])
    ])
  ]

  next-Makes : (buf : List ℕ) (valid : Bool) → Makes (iter buf valid) (next net (iter buf valid))
  unfolding next
  next-Makes buf false = (_, refl, (omega arith, inl refl))
  next-Makes [] true = (_, refl, (omega arith, inl refl))
  next-Makes (x ∷ buf) true =
      let nonempty : (length (x ∷ buf) == 0) ≡ false = ground arith in
      rw (nonempty, byte_at_ok (x ∷ buf) 0 (omega arith))
        (read_option-Makes x (x ∷ buf) (omega arith))

  -- `next` never panics, whatever the bytes are. It gives no option, or the rest is shorter, or it
  -- has read an option of length 0 and is the same iterator as before.
  pub next-Progress :
      (it : TcpOptionIter)
      → (s : Option TcpOption × TcpOptionIter) × (next net it ≡ ok s) × Progress it s
  next-Progress it = next-Makes it.buf it.valid

  abbrev size : TcpOptionIter → ℕ
  size it = length it.buf

  next-shorter :
      (it : TcpOptionIter) → OptionLoop.Makes (next net) (λ r. r.valid) size it (next net it)
  next-shorter it = let (s, e, how) = next-Progress it in (s, e, how.1)

  -- `check_option_bytes` returns within one round more than there are bytes, or it never returns.
  pub check_option_bytes_decides :
      (fuel : ℕ) (buf : List ℕ)
      → length buf < fuel
      → ((b : Bool) × (check_option_bytes net fuel buf ≡ ok (some b)))
        ⊎ ((n : ℕ) → check_option_bytes net n buf ≡ ok none)
  check_option_bytes_decides fuel buf h =
      OptionLoop.check_loop-Decides (next net) (λ r. r.valid) size next-shorter fuel
        (from_option_bytes buf) h

  -- An option that the reader does not know, with the length 0, is read again and again: on such
  -- bytes `check_option_bytes` does not return, whatever follows them.
  pub zero_length_stalls :
      (kind : ℕ) (rest : List ℕ)
      → 5 < kind
      → kind ≢ 8
      → kind ≢ 34
      → (n : ℕ) → check_option_bytes net n (kind ∷ 0 ∷ rest) ≡ ok none
  unfolding next read_option read_long read_unknown
  zero_length_stalls kind rest h ne8 ne34 n =
      let buf : List ℕ = kind ∷ 0 ∷ rest in
      OptionLoop.stalled (next net) (λ r. r.valid) size (from_option_bytes buf) (unknown [])
        (ground (
          arith,
          byte_at_ok buf 0 (omega arith),
          byte_at_ok buf 1 (omega arith),
          slice_to_ok buf 0 (omega arith),
          found_ok buf 0 (unknown []) (omega arith),
        ))
        n

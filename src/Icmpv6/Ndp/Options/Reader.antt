-- ===== src/Icmpv6/Ndp/Options/Reader.antt =====
-- `NdpOptionIter` on any bytes.
use rpkt.Base.{ℕ, zero, suc, ◌*◌, ◌≤◌, ◌<◌, ltb, ◌==◌, ◌||◌, not, Bool, true, false, Bool-cases}
use rpkt.Base.{
  List, [], ◌∷◌, Option, none, some, ok, length, take, drop, ◌≡◌, refl, ◌⊎◌, inl, inr, arith,
  length-drop, if◌then◌else◌,
}
use rpkt.Wire.Laws.{slice_from_ok, slice_to_ok, byte_at_ok}
use rpkt.OptionLoop
use rpkt.Icmpv6.Ndp.Options.{
  NdpOption, NdpOptionIter, Read, src_link_addr, dst_link_addr, prefix_info, redirected_hdr, mtu,
  from_option_bytes, invalid, take_option, read_option, next, check_option_bytes,
}

abbrev pub size : NdpOptionIter → ℕ
size it = length it.buf

-- Nothing is read, or the option is the first `n` bytes.
abbrev Reads : ℕ → List ℕ → Read → Type 0
Reads n buf o =
    (o ≡ invalid buf)
    ⊎ ((opt : NdpOption) × (o ≡ ok (some opt, from_option_bytes (drop n buf))) × (n ≤ length buf))

pub take_option_ok :
    (buf : List ℕ) (n : ℕ) (refused : Bool) (opt : List ℕ → NdpOption)
    → n ≤ length buf
    → (ltb (length buf) n || refused) ≡ false
    → take_option buf n refused opt ≡ ok (some (opt (take n buf)), from_option_bytes (drop n buf))
unfolding take_option
take_option_ok buf n refused opt h e = rw (e, slice_to_ok buf n h, slice_from_ok buf n h) refl

take_option-Reads :
    (buf : List ℕ) (n : ℕ) (refused : Bool) (opt : List ℕ → NdpOption)
    → Reads n buf (take_option buf n refused opt)
take_option-Reads buf n refused opt = elim (Bool-cases (ltb (length buf) n || refused)) [
  | inl bad ↦ inl (unfold take_option in rw bad refl)
  | inr good ↦
      let h : n ≤ length buf = ground arith in
      inr (opt (take n buf), take_option_ok buf n refused opt h good, h)
]

module _ (n : ℕ) (buf : List ℕ) where
  choose :
      {o p : Read} (b : Bool) → Reads n buf o → Reads n buf p → Reads n buf (if b then o else p)
  choose true r s = r
  choose false r s = s

  read_option-Reads : (opt_type : ℕ) → Reads n buf (read_option opt_type buf n)
  unfolding read_option
  read_option-Reads opt_type =
      choose (opt_type == 1) (take_option-Reads buf n false src_link_addr) (
        choose (opt_type == 2) (take_option-Reads buf n false dst_link_addr) (
          choose (opt_type == 3) (take_option-Reads buf n (not (n == 32)) prefix_info) (
            choose (opt_type == 4) (take_option-Reads buf n false redirected_hdr)
              (choose (opt_type == 5) (take_option-Reads buf n (not (n == 8)) mtu) (inl refl)))))

abbrev iter : List ℕ → Bool → NdpOptionIter
iter buf valid = record { buf = buf; valid = valid }

abbrev pub Makes : NdpOptionIter → Read → Type 0
Makes = OptionLoop.Makes next (λ it. it.valid) size

Reads-Makes : (n : ℕ) (buf : List ℕ) {o : Read} → Reads n buf o → Makes (from_option_bytes buf) o
Reads-Makes n buf (inl e) = (_, e, inl refl)
Reads-Makes zero buf (inr (opt, e, h)) = (_, e, inr (inr refl))
Reads-Makes (suc n) buf (inr (opt, e, h)) =
    (_, e, inr (inl (omega (arith, length-drop (suc n) buf))))

-- `next` of the option reader never panics, whatever the bytes are. It gives no option, or the rest is
-- shorter, or it has read an option of length 0 and is the same iterator as before.
pub next-Makes_ndp :
    (it : NdpOptionIter)
    → (s : Option NdpOption × NdpOptionIter) × (next it ≡ ok s)
      × ((s.0 ≡ none) ⊎ ((length s.1.buf < length it.buf) ⊎ (s.1 ≡ it)))
unfolding next
next-Makes_ndp it = at it.buf it.valid
  where
    at : (buf : List ℕ) (valid : Bool) → Makes (iter buf valid) (next (iter buf valid))
    at buf false = (_, refl, inl refl)
    at [] true = (_, refl, inl refl)
    at (x ∷ []) true = (_, refl, inl refl)
    at (x ∷ y ∷ buf) true =
        let nonempty : (length (x ∷ y ∷ buf) == 0) ≡ false = ground arith in
        let two : ltb (length (x ∷ y ∷ buf)) 2 ≡ false = ground arith in
        rw
          (
            nonempty,
            two,
            byte_at_ok (x ∷ y ∷ buf) 0 (omega arith),
            byte_at_ok (x ∷ y ∷ buf) 1 (omega arith),
          )
          (Reads-Makes (y * 8) (x ∷ y ∷ buf) (read_option-Reads (y * 8) (x ∷ y ∷ buf) x))

-- `check_option_bytes` returns within one round more than there are bytes, or it never returns.
pub check_option_bytes_ends_ndp :
    (fuel : ℕ) (buf : List ℕ)
    → length buf < fuel
    → ((b : Bool) × (check_option_bytes fuel buf ≡ ok (some b)))
      ⊎ ((n : ℕ) → check_option_bytes n buf ≡ ok none)
check_option_bytes_ends_ndp fuel buf h =
    OptionLoop.check_loop-Decides next (λ it. it.valid) size next-Makes_ndp fuel
      (from_option_bytes buf) h

-- Bytes that start with a source link address of length 0 are read for ever, whatever follows them:
-- `check_option_bytes` does not return.
pub zero_length_stalls_ndp : (rest : List ℕ) (n : ℕ) → check_option_bytes n (1 ∷ 0 ∷ rest) ≡ ok none
unfolding next read_option
zero_length_stalls_ndp rest n =
    let buf : List ℕ = 1 ∷ 0 ∷ rest in
    let two : ltb (length buf) 2 ≡ false = ground arith in
    let nonempty : (length buf == 0) ≡ false = ground arith in
    let long : ltb (length buf) 0 ≡ false = ground arith in
    OptionLoop.stalled next (λ it. it.valid) size (from_option_bytes buf) (src_link_addr [])
      (rw (nonempty, two, byte_at_ok buf 0 (omega arith), byte_at_ok buf 1 (omega arith))
        (take_option_ok buf 0 false src_link_addr (omega arith) (rw long refl)))
      n

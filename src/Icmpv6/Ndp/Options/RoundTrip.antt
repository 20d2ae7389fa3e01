-- ===== src/Icmpv6/Ndp/Options/RoundTrip.antt =====
-- What `NdpOptionWriter` writes, and `NdpOptionIter` reads back.
use rpkt.Base.{ℕ, ◌+◌, ◌-◌, ◌*◌, ◌/◌, ◌%◌, ◌^◌, ◌≤◌, ◌<◌, ltb, ◌==◌, ◌||◌, lt→ltb, le→ltb, le→leb}
use rpkt.Base.{
  eq→==, true, false, take-all, List, [], ◌∷◌, ◌++◌, replicate, some, ok, panic, ◌>>=◌, length,
}
use rpkt.Base.{take, drop, get_or, ◌≡◌, refl, ap, ◌∙◌, arith, append-nil, length-zero, drop_into}
use rpkt.Base.{
  length-append, length-take, length-drop, take_prefix, drop_prefix, take_into, drop-drop,
}
use rpkt.Wire.{splice, set_range}
use rpkt.Wire.Fill.{filled, set_byte_fills, length-filled}
use rpkt.Wire.Laws.{slice_to_ok, slice_from_ok, slice_panics, slice_ok, byte_at_ok, set_range_ok}
use rpkt.Icmpv6.Ndp.Options.{NdpOption, from_option_bytes, read_option, next}
use rpkt.Icmpv6.Ndp.Options
use rpkt.Icmpv6.Ndp.Options.Reader.{take_option_ok}
use rpkt.Icmpv6.Ndp.Options.Fields.{link_addr, set_link_addr, data_mut}
use rpkt.Icmpv6.Ndp.Options.Writer
use rpkt.Icmpv6.Ndp.Options.Writer.{NdpOptionWriter, start}

start_ok :
    (w : NdpOptionWriter) (t len n : ℕ)
    → 2 ≤ n
    → n ≤ length w.buf
    → start w t len n ≡ ok (t ∷ len ∷ take (n - 2) (drop 2 w.buf), record w { buf = drop n w.buf })
unfolding start
start_ok w t len n h k =
    let two : List ℕ = t ∷ len ∷ [] in
    let size : length (filled two 2 w.buf) ≡ length w.buf =
      length-filled w.buf two 2 refl (omega arith) in
    let split : 2 + (n - 2) ≡ n = omega arith in
    rw
      (
        set_byte_fills w.buf [] 0 refl t (omega arith),
        set_byte_fills w.buf (t ∷ []) 1 refl len (omega arith),
        slice_to_ok (filled two 2 w.buf) n (omega arith),
        slice_from_ok (filled two 2 w.buf) n (omega arith),
        take_into two (drop 2 w.buf) n (n - 2) split,
        drop_into two (drop 2 w.buf) n (n - 2) split,
        drop-drop 2 (n - 2) w.buf,
        split,
      )
      refl

-- All bytes behind the first two are written.
overwrite :
    (t len : ℕ) (xs bytes : List ℕ)
    → length bytes ≡ length xs
    → set_range (t ∷ len ∷ xs) 2 (2 + length xs) bytes ≡ ok (t ∷ len ∷ bytes)
overwrite t len xs bytes e =
    let behind : drop (2 + length bytes) (t ∷ len ∷ xs) ≡ [] =
      length-zero _ (omega (arith, length-drop (2 + length bytes) (t ∷ len ∷ xs))) in
    set_range_ok (t ∷ len ∷ xs) 2 (2 + length xs) bytes (omega arith) (omega arith)
    ∙ (unfold splice in
        ap (λ zs. ok (t ∷ len ∷ (bytes ++ zs))) behind
        ∙ ap (λ zs. ok (t ∷ len ∷ zs)) (append-nil bytes))

set_link_addr_ok :
    (t : ℕ) (xs addr : List ℕ)
    → length xs ≡ 6
    → length addr ≡ 6
    → set_link_addr (t ∷ 1 ∷ xs) addr ≡ ok (t ∷ 1 ∷ addr)
unfolding set_link_addr
set_link_addr_ok t xs addr e e' = rw (byte_at_ok (t ∷ 1 ∷ xs) 1 (omega arith)) (
    ap (λ n. set_range (t ∷ 1 ∷ xs) 2 n addr) {x = 8} {y = 2 + length xs} (omega arith)
    ∙ overwrite t 1 xs addr (omega arith))

-- Reading a link address back, of the type `t`.
module _ (w : NdpOptionWriter) (addr rest : List ℕ) (h : 8 < length w.buf)
    (e : length addr ≡ 6) where
  abbrev zeros : List ℕ
  zeros = replicate 6 0

  start_eight :
      (t len : ℕ)
      → (xs : List ℕ) × (length xs ≡ 6)
        × (start w t len 8 ≡ ok (t ∷ len ∷ xs, record w { buf = drop 8 w.buf }))
  start_eight t len = (
    take 6 (drop 2 w.buf),
    omega (arith, length-take 6 (drop 2 w.buf), length-drop 2 w.buf),
    start_ok w t len 8 (omega arith) (omega arith),
  )

  read_eight :
      (t : ℕ) (make : List ℕ → NdpOption)
      → Options.take_option (t ∷ 1 ∷ addr ++ rest) 8 false make
        ≡ ok (some (make (t ∷ 1 ∷ addr)), from_option_bytes rest)
  read_eight t make =
      let buf : List ℕ = t ∷ 1 ∷ addr ++ rest in
      let size : length buf ≡ 8 + length rest = omega (arith, length-append addr rest) in
      let long : (ltb (length buf) 8 || false) ≡ false = rw (le→ltb 8 (length buf) (omega arith)) in
      take_option_ok buf 8 false make (omega arith) long
      ∙ rw
          (
            take_prefix 8 (t ∷ 1 ∷ addr) rest (omega arith),
            drop_prefix 8 (t ∷ 1 ∷ addr) rest (omega arith),
          )
          refl

  next_eight :
      (t : ℕ)
      → next (from_option_bytes (t ∷ 1 ∷ addr ++ rest)) ≡ read_option t (t ∷ 1 ∷ addr ++ rest) 8
  unfolding next
  next_eight t =
      let buf : List ℕ = t ∷ 1 ∷ addr ++ rest in
      let nonempty : (length buf == 0) ≡ false = ground arith in
      let two : ltb (length buf) 2 ≡ false = ground arith in
      rw (nonempty, two, byte_at_ok buf 0 (omega arith), byte_at_ok buf 1 (omega arith)) refl

  link_addr_ok : (t : ℕ) → link_addr (t ∷ 1 ∷ addr) ≡ ok addr
  unfolding link_addr
  link_addr_ok t =
      let size : length (t ∷ 1 ∷ addr) ≡ 8 = omega arith in
      rw
        (
          byte_at_ok (t ∷ 1 ∷ addr) 1 (omega arith),
          slice_ok (t ∷ 1 ∷ addr) 2 8 (omega arith) (omega arith),
        )
        (ap ok (take-all 6 addr (omega arith)))

  -- With more than 8 bytes to write, and an address of six bytes: `src_link_addr`, then `set_link_addr`
  -- of the option that it gives, writes the type, the length 1 and the address. In front of any bytes,
  -- the reader gives this option and goes on with these bytes; its `link_addr` is the address. The same
  -- holds for `dst_link_addr`.
  pub next-src_link_addr :
      ((opt : List ℕ) × (Writer.src_link_addr w ≡ ok (opt, record w { buf = drop 8 w.buf }))
        × (set_link_addr opt addr ≡ ok (1 ∷ 1 ∷ addr))
        × (next (from_option_bytes (1 ∷ 1 ∷ addr ++ rest))
            ≡ ok (some (Options.src_link_addr (1 ∷ 1 ∷ addr)), from_option_bytes rest))
        × (link_addr (1 ∷ 1 ∷ addr) ≡ ok addr))
      × ((opt : List ℕ) × (Writer.dst_link_addr w ≡ ok (opt, record w { buf = drop 8 w.buf }))
          × (set_link_addr opt addr ≡ ok (2 ∷ 1 ∷ addr))
          × (next (from_option_bytes (2 ∷ 1 ∷ addr ++ rest))
              ≡ ok (some (Options.dst_link_addr (2 ∷ 1 ∷ addr)), from_option_bytes rest))
          × (link_addr (2 ∷ 1 ∷ addr) ≡ ok addr))
  unfolding Writer.src_link_addr Writer.dst_link_addr
  next-src_link_addr =
      let (xs, six, e1) = start_eight 1 1 in
      let (ys, six', e2) = start_eight 2 1 in
      let room : ltb 8 (length w.buf) ≡ true = lt→ltb 8 (length w.buf) h in
      (
        (
          1 ∷ 1 ∷ zeros,
          rw (room, e1, set_link_addr_ok 1 xs zeros six (omega arith)) refl,
          set_link_addr_ok 1 zeros addr (omega arith) e,
          next_eight 1 ∙ (unfold read_option in read_eight 1 Options.src_link_addr),
          link_addr_ok 1,
        ),
        (
          2 ∷ 1 ∷ zeros,
          rw (room, e2, set_link_addr_ok 2 ys zeros six' (omega arith)) refl,
          set_link_addr_ok 2 zeros addr (omega arith) e,
          next_eight 2 ∙ (unfold read_option in read_eight 2 Options.dst_link_addr),
          link_addr_ok 2,
        ),
      )

-- `redirected_hdr` of more than 8 bytes splits off 8 only: for a length that it accepts, it returns an
-- option whose `data_mut` panics, and the bytes behind the first 8 are still to be written.
pub data_mut-redirected_hdr :
    (w : NdpOptionWriter) (opt_len : ℕ)
    → opt_len < length w.buf
    → opt_len % 8 ≡ 0
    → 8 < opt_len
    → opt_len ≤ 2040
    → (opt : List ℕ) × (Writer.redirected_hdr w opt_len ≡ ok (opt, record w { buf = drop 8 w.buf }))
      × (get_or opt 1 0 * 8 ≡ opt_len)
      × (data_mut opt ≡ panic)
unfolding Writer.redirected_hdr data_mut
data_mut-redirected_hdr w opt_len h even lo hi =
    let n : ℕ = opt_len / 8 % 2 ^ 8 in
    let total : n * 8 ≡ opt_len = omega arith in
    let xs : List ℕ = take 6 (drop 2 w.buf) in
    let six : length xs ≡ 6 = omega (arith, length-take 6 (drop 2 w.buf), length-drop 2 w.buf) in
    let opt : List ℕ = 4 ∷ n ∷ replicate 6 0 in
    (
      opt,
      rw
          (
            lt→ltb opt_len (length w.buf) h,
            eq→== (opt_len % 8) 0 even,
            le→leb 8 opt_len (omega arith),
            le→leb opt_len 2040 hi,
            start_ok w 4 n 8 (omega arith) (omega arith),
          )
          (ap (λ o. o >>= λ bytes. ok (bytes, record w { buf = drop 8 w.buf }))
            (ap (λ m. set_range (4 ∷ n ∷ xs) 2 m (replicate 6 0)) {x = 8} {y = 2 + length xs}
                (omega arith)
              ∙ overwrite 4 n xs (replicate 6 0) (omega arith))),
      total,
      rw (byte_at_ok opt 1 (omega arith), slice_panics opt 8 (n * 8) (omega arith)) refl,
    )

-- ===== src/Udp/Verify.antt =====
-- The checksum of a datagram over a buffer that keeps the contract of `PktMut`.
use rpkt.Base.{ℕ, ◌+◌, ◌-◌, ◌*◌, ◌≤◌, ◌<◌, ◌==◌, eq→==, true, Bool-cases, inl, inr}
use rpkt.Base.{List, length, take, All, All-take, All-get_or, get_or, ok, if◌then◌else◌}
use rpkt.Base.{◌≡◌, refl, ap, ◌∙◌, arith}
use rpkt.Extern.{ByteOrder, Take, IsByte, IsU16}
use rpkt.Wire.{splice}
use rpkt.Wire.Laws.{field_u16_ok, length-splice}
use rpkt.Wire.Fields.{wire_u16, get_or-splice-Apart}
use rpkt.Traits.{PktMut, IsPktMut}
use rpkt.Packet.{get}
use rpkt.Packet.Laws
use rpkt.Packet.Laws.{Holds, Gives, ok_then}
use rpkt.Packet.Checksum.{sum_over-Holds}
use rpkt.Packet.Adjust.{adjust-Gives}
use rpkt.Checksum.Spec.{word_sum, fold}
use rpkt.Checksum.Field.{
  around, word_sum-splice, splice-All, nonzero, fold-nonzero, nonzero-positive, nonzero-IsU16,
}
use rpkt.Ipv4.Pseudo.{IsWord, pseudo, from_udp_pkt, combine_with_ok, calc_checksum-from_udp_pkt}
use rpkt.Udp.Header
use rpkt.Udp.Laws.{stated_len, HasDatagram, packet_len-Holds}
use rpkt.Udp.Checksum.{calc_checksum, combined, verify_ipv4_checksum, adjust_ipv4_checksum}

-- The checksum field of the bytes.
abbrev pub stated_checksum : List ℕ → ℕ
stated_checksum y = get_or y 6 0 * 256 + get_or y 7 0

stated_len-IsU16 : (y : List ℕ) → All IsByte y → 8 ≤ length y → IsU16 (stated_len y)
stated_len-IsU16 y h k =
    omega (arith, All-get_or IsByte y 4 h (omega arith), All-get_or IsByte y 5 h (omega arith))

-- Writing the checksum field changes neither the length field nor what the buffer holds.
stated_len-splice :
    (y : List ℕ) (v : ℕ) → 8 ≤ length y → stated_len (splice y 6 (wire_u16 v)) ≡ stated_len y
stated_len-splice y v h = omega (
  arith,
  get_or-splice-Apart y 6 (wire_u16 v) 4 (omega arith) (inl (omega arith)),
  get_or-splice-Apart y 6 (wire_u16 v) 5 (omega arith) (inl (omega arith)),
)

passes : (field sum : ℕ) → sum ≡ 0xffff → (if field == 0 then true else sum == 0xffff) ≡ true
passes field sum full = elim (Bool-cases (field == 0)) [
  | inl off ↦ rw off refl
  | inr on ↦ rw on (eq→== sum 0xffff full)
]

datagram-splice : (y : List ℕ) (v : ℕ) → HasDatagram y → HasDatagram (splice y 6 (wire_u16 v))
datagram-splice y v h =
    omega (arith, stated_len-splice y v (omega arith), length-splice y 6 (wire_u16 v) (omega arith))

-- The sum of the words of the pseudo-header and of the datagram.
abbrev pub udp_words : List ℕ → List ℕ → List ℕ → ℕ
udp_words src_addr dst_addr y =
    word_sum (pseudo src_addr dst_addr 17 (stated_len y)) + word_sum (take (stated_len y) y)

module _ (net : ByteOrder) (P : PktMut) (L : IsPktMut P) (T : Take P.pkt_buf.buf)
    (src_addr dst_addr : List ℕ) (hs : IsWord src_addr) (hd : IsWord dst_addr) where
  combined-Holds :
      (b : P.Buffer) (f y : List ℕ)
      → Holds P L b f y
      → HasDatagram y
      → IsU16 (stated_len y)
      → All IsByte (take (stated_len y) y)
      → (c : P.Buffer) × (combined net P.pkt_buf T src_addr dst_addr b
          ≡ ok (fold (udp_words src_addr dst_addr y), c))
        × Holds P L c f y
  unfolding combined calc_checksum
  combined-Holds b f y at h u bytes =
      let len : ℕ = stated_len y in
      let (c, e, hc) = sum_over-Holds net P L T b f y len at h.1 (omega arith) bytes in
      (
        c,
        combine_with_ok net (from_udp_pkt net P.pkt_buf.buf src_addr dst_addr b) _ src_addr dst_addr
            17 len (word_sum (take len y)) c hs hd (omega arith)
            (calc_checksum-from_udp_pkt net P L b f y at src_addr dst_addr hs hd (omega arith) u)
            (rw (packet_len-Holds net P L b f y at (omega arith)) e),
        hc,
      )

  words-splice :
      (y : List ℕ) (v : ℕ)
      → HasDatagram y
      → IsU16 v
      → udp_words src_addr dst_addr (splice y 6 (wire_u16 v))
        ≡ word_sum (pseudo src_addr dst_addr 17 (stated_len y)) + around y 6 (stated_len y) + v
  words-splice y v h u =
      let z : List ℕ = splice y 6 (wire_u16 v) in
      ap (λ n. word_sum (pseudo src_addr dst_addr 17 n) + word_sum (take n z))
        (stated_len-splice y v (omega arith))
      ∙ omega (arith, word_sum-splice y 6 (stated_len y) v (omega arith) (omega arith) h.1 u)

  combined-splice :
      (f y : List ℕ)
      → HasDatagram y
      → All IsByte y
      → (b : P.Buffer) (v : ℕ) → IsU16 v
      → Holds P L b f (splice y 6 (wire_u16 v))
      → (c : P.Buffer) × (combined net P.pkt_buf T src_addr dst_addr b
          ≡ ok (
            fold (
                word_sum (pseudo src_addr dst_addr 17 (stated_len y))
                + around y 6 (stated_len y)
                + v),
            c,
          ))
        × Holds P L c f (splice y 6 (wire_u16 v))
  combined-splice f y h bytes b v u at =
      let z : List ℕ = splice y 6 (wire_u16 v) in
      let (c, e, hc) =
        combined-Holds b f z at (datagram-splice y v h)
          (stated_len-IsU16 z (splice-All y 6 v (omega arith) (omega arith) bytes)
            (omega (arith, (datagram-splice y v h).0, (datagram-splice y v h).1)))
          (All-take IsByte (stated_len z) z (splice-All y 6 v (omega arith) (omega arith) bytes)) in
      (c, e ∙ ap (λ n. ok (fold n, c)) (words-splice y v h u), hc)

  -- On a sound buffer whose bytes `y` start with a datagram, and for addresses of four bytes,
  -- `verify_ipv4_checksum` returns, with a buffer that holds the same bytes. It is true if the checksum
  -- field is 0, and otherwise if the words of the pseudo-header and of the datagram fold to 0xffff.
  pub verify_ipv4_checksum_decides :
      (b : P.Buffer) (f y : List ℕ)
      → Holds P L b f y
      → HasDatagram y
      → All IsByte y
      → (c : P.Buffer) × (verify_ipv4_checksum net P.pkt_buf T src_addr dst_addr b
          ≡ ok (
            if stated_checksum y == 0 then true else fold (udp_words src_addr dst_addr y) == 0xffff,
            c,
          ))
        × Holds P L c f y
  unfolding verify_ipv4_checksum get Header.checksum
  verify_ipv4_checksum_decides b f y at h bytes =
      let read : Header.checksum net (P.chunk b) ≡ ok (stated_checksum y) =
        ap (Header.checksum net) (Laws.chunk-Holds P L b f y at)
        ∙ field_u16_ok net 6 y (omega arith) in
      let (c, e, hc) =
        combined-Holds b f y at h (stated_len-IsU16 y bytes (omega arith))
          (All-take IsByte (stated_len y) y bytes) in
      elim (Bool-cases (stated_checksum y == 0)) [
        | inl off ↦ (b, rw (read, off) refl, at)
        | inr on ↦ (c, rw (read, on, e) refl, hc)
      ]

  -- On a sound buffer whose bytes `y` start with a datagram, and for addresses of four bytes,
  -- `adjust_ipv4_checksum` returns a buffer that differs from it only in the checksum field, which is
  -- a word `v` of 16 bits other than 0; the words of the pseudo-header and of the datagram fold to 0xffff, and
  -- `verify_ipv4_checksum` of it is true.
  pub verify-adjust_ipv4_checksum_udp :
      (b : P.Buffer) (f y : List ℕ)
      → Holds P L b f y
      → HasDatagram y
      → All IsByte y
      → (c d : P.Buffer) × (v : ℕ) × (adjust_ipv4_checksum net P T src_addr dst_addr b ≡ ok c)
        × (0 < v)
        × IsU16 v
        × Holds P L c f (splice y 6 (wire_u16 v))
        × (fold (udp_words src_addr dst_addr (splice y 6 (wire_u16 v))) ≡ 0xffff)
        × (verify_ipv4_checksum net P.pkt_buf T src_addr dst_addr c ≡ ok (true, d))
  unfolding adjust_ipv4_checksum Header.set_checksum
  verify-adjust_ipv4_checksum_udp b f y at h bytes =
      let len : ℕ = stated_len y in
      let n : ℕ = word_sum (pseudo src_addr dst_addr 17 len) in
      let others : ℕ = n + around y 6 len in
      let v : ℕ = nonzero (0xffff - fold others) in
      let u : IsU16 v = nonzero-IsU16 (0xffff - fold others) (omega arith) in
      let (c, e, hc) =
        adjust-Gives net P L 6 f y others (omega arith) (combined net P.pkt_buf T src_addr dst_addr)
          (combined-splice f y h bytes) nonzero b at in
      let full : fold (udp_words src_addr dst_addr (splice y 6 (wire_u16 v))) ≡ 0xffff =
        ap fold (words-splice y v h u) ∙ fold-nonzero others in
      let (d, e'', _) =
        verify_ipv4_checksum_decides c f (splice y 6 (wire_u16 v)) hc (datagram-splice y v h)
          (splice-All y 6 v (omega arith) (omega arith) bytes) in
      (
        c,
        d,
        v,
        e,
        nonzero-positive (0xffff - fold others),
        u,
        hc,
        full,
        e''
            ∙ ap (λ accepted. ok (accepted, d))
                (passes (stated_checksum (splice y 6 (wire_u16 v))) _ full),
      )

-- ===== src/Tcp/Verify.antt =====
-- The checksum of a segment over a buffer that keeps the contract of `PktMut`.
use rpkt.Base.{ℕ, ◌+◌, ◌-◌, ◌≤◌, ◌==◌, true}
use rpkt.Base.{List, length, take, All, take-all, ok}
use rpkt.Base.{◌≡◌, refl, ap, ◌∙◌, arith}
use rpkt.Extern.{ByteOrder, Take, IsByte, IsU16}
use rpkt.Wire.{splice}
use rpkt.Wire.Laws.{length-splice}
use rpkt.Wire.Fields.{wire_u16}
use rpkt.Traits.{PktMut, IsPktMut}
use rpkt.Packet.Laws
use rpkt.Packet.Laws.{Holds, Gives, ok_then}
use rpkt.Packet.Checksum.{sum_over, sum_over-Holds}
use rpkt.Packet.Adjust.{adjust-Gives}
use rpkt.Checksum.Spec.{word_sum, fold}
use rpkt.Checksum.Field.{around, word_sum-splice, splice-All, fold_complement}
use rpkt.Ipv4.Pseudo.{IsWord, pseudo, from_tcp_pkt, combine_with_ok, calc_checksum-from_tcp_pkt}
use rpkt.Tcp.Header
use rpkt.Tcp.Checksum.{calc_checksum, combined, verify_ipv4_checksum, adjust_ipv4_checksum}

-- The sum of the words of the pseudo-header and of the segment.
abbrev pub tcp_words : List ℕ → List ℕ → List ℕ → ℕ
tcp_words src_addr dst_addr y = word_sum (pseudo src_addr dst_addr 6 (length y)) + word_sum y

module _ (net : ByteOrder) (P : PktMut) (L : IsPktMut P) (T : Take P.pkt_buf.buf)
    (src_addr dst_addr : List ℕ) (hs : IsWord src_addr) (hd : IsWord dst_addr) where
  combined-Holds :
      (b : P.Buffer) (f y : List ℕ)
      → Holds P L b f y
      → IsU16 (length y)
      → All IsByte y
      → (c : P.Buffer) × (combined net P.pkt_buf T src_addr dst_addr b
          ≡ ok (fold (tcp_words src_addr dst_addr y), c))
        × Holds P L c f y
  unfolding combined calc_checksum
  combined-Holds b f y at u bytes =
      let len : ℕ = length y in
      let all : take len y ≡ y = take-all len y (omega arith) in
      let (c, e, hc) =
        sum_over-Holds net P L T b f y len at (omega arith) (omega arith) (rw all bytes) in
      (
        c,
        combine_with_ok net (from_tcp_pkt net P.pkt_buf.buf src_addr dst_addr b) _ src_addr dst_addr
            6 len (word_sum y) c hs hd (omega arith)
            (calc_checksum-from_tcp_pkt net P L b f y at src_addr dst_addr hs hd u)
            (ap (λ n. sum_over net P.pkt_buf T n b) (Laws.remaining-Holds P L b f y at)
              ∙ e
              ∙ ap (λ bs. ok (fold (word_sum bs), c)) all),
        hc,
      )

  -- On a sound buffer of fewer than 2 ^ 16 bytes `y`, and for addresses of four bytes,
  -- `verify_ipv4_checksum` returns, with a buffer that holds the same bytes. It is true if and only if
  -- the words of the pseudo-header and of `y` fold to 0xffff.
  pub verify_ipv4_checksum_decides_tcp :
      (b : P.Buffer) (f y : List ℕ)
      → Holds P L b f y
      → IsU16 (length y)
      → All IsByte y
      → (c : P.Buffer) × (verify_ipv4_checksum net P.pkt_buf T src_addr dst_addr b
          ≡ ok (fold (tcp_words src_addr dst_addr y) == 0xffff, c))
        × Holds P L c f y
  unfolding verify_ipv4_checksum
  verify_ipv4_checksum_decides_tcp b f y at u bytes =
      let (c, e, hc) = combined-Holds b f y at u bytes in (c, rw e refl, hc)

  abbrev others : List ℕ → ℕ
  others y = word_sum (pseudo src_addr dst_addr 6 (length y)) + around y 16 (length y)

  words-splice :
      (y : List ℕ) (v : ℕ)
      → 20 ≤ length y
      → IsU16 v
      → tcp_words src_addr dst_addr (splice y 16 (wire_u16 v)) ≡ others y + v
  words-splice y v h u =
      let z : List ℕ = splice y 16 (wire_u16 v) in
      let size : length z ≡ length y = length-splice y 16 (wire_u16 v) (omega arith) in
      ap (λ n. word_sum (pseudo src_addr dst_addr 6 n) + word_sum z) size
      ∙ omega (
        arith,
        word_sum-splice y 16 (length y) v (omega arith) (omega arith) (omega arith) u,
        ap word_sum (take-all (length y) z (omega arith)),
      )

  combined-splice :
      (f y : List ℕ)
      → 20 ≤ length y
      → IsU16 (length y)
      → All IsByte y
      → (b : P.Buffer) (v : ℕ) → IsU16 v
      → Holds P L b f (splice y 16 (wire_u16 v))
      → (c : P.Buffer) × (combined net P.pkt_buf T src_addr dst_addr b
          ≡ ok (fold (others y + v), c))
        × Holds P L c f (splice y 16 (wire_u16 v))
  combined-splice f y h u bytes b v k at =
      let z : List ℕ = splice y 16 (wire_u16 v) in
      let size : length z ≡ length y = length-splice y 16 (wire_u16 v) (omega arith) in
      let (c, e, hc) =
        combined-Holds b f z at (omega arith)
          (splice-All y 16 v (omega arith) (omega arith) bytes) in
      (c, e ∙ ap (λ n. ok (fold n, c)) (words-splice y v h k), hc)

  -- On a sound buffer of at least 20 and fewer than 2 ^ 16 bytes `y`, and for addresses of four bytes,
  -- `adjust_ipv4_checksum` returns a buffer that differs from it only in the checksum field; the words
  -- of the pseudo-header and of its bytes fold to 0xffff, and `verify_ipv4_checksum` of it is true.
  pub verify-adjust_ipv4_checksum_tcp :
      (b : P.Buffer) (f y : List ℕ)
      → Holds P L b f y
      → 20 ≤ length y
      → IsU16 (length y)
      → All IsByte y
      → (c d : P.Buffer) × (v : ℕ) × (adjust_ipv4_checksum net P T src_addr dst_addr b ≡ ok c)
        × Holds P L c f (splice y 16 (wire_u16 v))
        × (fold (tcp_words src_addr dst_addr (splice y 16 (wire_u16 v))) ≡ 0xffff)
        × (verify_ipv4_checksum net P.pkt_buf T src_addr dst_addr c ≡ ok (true, d))
  unfolding adjust_ipv4_checksum Header.set_checksum
  verify-adjust_ipv4_checksum_tcp b f y at h u bytes =
      let v : ℕ = 0xffff - fold (others y) in
      let z : List ℕ = splice y 16 (wire_u16 v) in
      let (c, e, hc) =
        adjust-Gives net P L 16 f y (others y) (omega arith)
          (combined net P.pkt_buf T src_addr dst_addr) (combined-splice f y h u bytes) (λ n. n) b
          at in
      let full : fold (tcp_words src_addr dst_addr z) ≡ 0xffff =
        ap fold (words-splice y v h (omega arith)) ∙ fold_complement (others y) in
      let (d, e', _) =
        verify_ipv4_checksum_decides_tcp c f z hc
          (omega (arith, length-splice y 16 (wire_u16 v) (omega arith)))
          (splice-All y 16 v (omega arith) (omega arith) bytes) in
      (c, d, v, e, hc, full, e' ∙ ap (λ n. ok (n == 0xffff, d)) full)

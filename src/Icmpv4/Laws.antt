-- ===== src/Icmpv4/Laws.antt =====
-- The checksum of `Icmpv4Packet` over a buffer that keeps the contract of `PktMut`.
use rpkt.Base.{ℕ, ◌+◌, ◌-◌, ◌≤◌, ◌^◌, ◌==◌, true, List, length, All, take, take-all, ok}
use rpkt.Base.{◌≡◌, refl, ap, ◌∙◌, arith}
use rpkt.Extern.{ByteOrder, Take, IsByte, IsU16}
use rpkt.Wire.{splice}
use rpkt.Wire.Laws.{length-splice}
use rpkt.Wire.Fields.{wire_u16}
use rpkt.Traits.{PktMut, IsPktMut}
use rpkt.Packet.Laws
use rpkt.Packet.Laws.{Holds}
use rpkt.Packet.Checksum.{sum_over, sum_over-Holds}
use rpkt.Packet.Adjust.{adjust-Gives}
use rpkt.Checksum.Spec.{word_sum, fold}
use rpkt.Checksum.Field.{around, word_sum-splice, splice-All, fold_complement}
use rpkt.Icmpv4.Header
use rpkt.Icmpv4.Packet.{calc_checksum, verify_checksum, adjust_checksum}

module _ (net : ByteOrder) (P : PktMut) (L : IsPktMut P) (T : Take P.pkt_buf.buf) where
  pub calc_checksum-Holds :
      (b : P.Buffer) (f y : List ℕ)
      → Holds P L b f y
      → length y ≤ 2 ^ 17
      → All IsByte y
      → (c : P.Buffer) × (calc_checksum net P.pkt_buf T b ≡ ok (fold (word_sum y), c))
        × Holds P L c f y
  unfolding calc_checksum
  calc_checksum-Holds b f y at u bytes =
      let len : ℕ = length y in
      let all : take len y ≡ y = take-all len y (omega arith) in
      let (c, e, hc) =
        sum_over-Holds net P L T b f y len at (omega arith) (omega arith) (rw all bytes) in
      (
        c,
        ap (λ n. sum_over net P.pkt_buf T n b) (Laws.remaining-Holds P L b f y at)
            ∙ e
            ∙ ap (λ bs. ok (fold (word_sum bs), c)) all,
        hc,
      )

  -- On a sound buffer of up to 2 ^ 17 bytes `y`, `verify_checksum` returns, with a buffer that holds
  -- the same bytes. It is true if and only if the words of `y` fold to 0xffff.
  pub verify_checksum_decides :
      (b : P.Buffer) (f y : List ℕ)
      → Holds P L b f y
      → length y ≤ 2 ^ 17
      → All IsByte y
      → (c : P.Buffer) × (verify_checksum net P.pkt_buf T b ≡ ok (fold (word_sum y) == 0xffff, c))
        × Holds P L c f y
  unfolding verify_checksum
  verify_checksum_decides b f y at u bytes =
      let (c, e, hc) = calc_checksum-Holds b f y at u bytes in (c, rw e refl, hc)

  calc_checksum-splice :
      (f y : List ℕ)
      → 8 ≤ length y
      → length y ≤ 2 ^ 17
      → All IsByte y
      → (b : P.Buffer) (v : ℕ) → IsU16 v
      → Holds P L b f (splice y 2 (wire_u16 v))
      → (c : P.Buffer) × (calc_checksum net P.pkt_buf T b
          ≡ ok (fold (around y 2 (length y) + v), c))
        × Holds P L c f (splice y 2 (wire_u16 v))
  calc_checksum-splice f y h u bytes b v k at =
      let z : List ℕ = splice y 2 (wire_u16 v) in
      let size : length z ≡ length y = length-splice y 2 (wire_u16 v) (omega arith) in
      let (c, e, hc) =
        calc_checksum-Holds b f z at (omega arith)
          (splice-All y 2 v (omega arith) (omega arith) bytes) in
      let sum : word_sum z ≡ around y 2 (length y) + v = omega (
        arith,
        word_sum-splice y 2 (length y) v (omega arith) (omega arith) (omega arith) k,
        ap word_sum (take-all (length y) z (omega arith)),
      ) in
      (c, e ∙ ap (λ n. ok (fold n, c)) sum, hc)

  -- On a sound buffer of at least 8 and at most 2 ^ 17 bytes `y`, `adjust_checksum` returns a buffer
  -- that differs from it only in the checksum field, and `verify_checksum` of it is true.
  pub verify_checksum-adjust_checksum_icmpv4 :
      (b : P.Buffer) (f y : List ℕ)
      → Holds P L b f y
      → 8 ≤ length y
      → length y ≤ 2 ^ 17
      → All IsByte y
      → (c d : P.Buffer) × (v : ℕ) × (adjust_checksum net P T b ≡ ok c)
        × Holds P L c f (splice y 2 (wire_u16 v))
        × (verify_checksum net P.pkt_buf T c ≡ ok (true, d))
  unfolding adjust_checksum verify_checksum Header.set_checksum
  verify_checksum-adjust_checksum_icmpv4 b f y at h u bytes =
      let others : ℕ = around y 2 (length y) in
      let v : ℕ = 0xffff - fold others in
      let (c, e, hc) =
        adjust-Gives net P L 2 f y others (omega arith) (calc_checksum net P.pkt_buf T)
          (calc_checksum-splice f y h u bytes) (λ n. n) b at in
      let (d, e', _) = calc_checksum-splice f y h u bytes c v (omega arith) hc in
      (c, d, v, e, hc, rw e' (ap (λ n. ok (n == 0xffff, d)) (fold_complement others)))

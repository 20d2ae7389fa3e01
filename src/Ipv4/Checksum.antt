-- ===== src/Ipv4/Checksum.antt =====
-- The header checksum of `Ipv4Packet`.
use rpkt.Base.{ℕ, ◌+◌, ◌-◌, ◌*◌, ◌%◌, ◌≤◌, true}
use rpkt.Base.{List, ok, ◌≡◌, refl, ap, ◌∙◌, arith, length, take, inl, All}
use rpkt.Base.{length-take}
use rpkt.Extern.{ByteOrder, IsByte, IsU16}
use rpkt.Wire.{splice}
use rpkt.Wire.Laws.{slice_ok, set_field_u16_ok, length-splice}
use rpkt.Wire.Fields.{wire_u16, get_or-splice-Apart}
use rpkt.Traits.{PktMut, IsPktMut}
use rpkt.Packet.{set}
use rpkt.Packet.Laws
use rpkt.Packet.Laws.{Holds, Gives, Gives-then, ok_then}
use rpkt.Checksum.{from_slice}
use rpkt.Checksum.Spec.{fold}
use rpkt.Checksum.Slice.{from_slice-fold}
use rpkt.Checksum.Field.{around, word_sum-splice, bytes-splice, splice-splice, fold_complement}
use rpkt.Ipv4.Header
use rpkt.Ipv4.Header.{not_u16}
use rpkt.Ipv4.Packet.{calc_checksum, verify_checksum, adjust_checksum}
use rpkt.Ipv4.Laws.{stated_header_len, header_len-Holds}

module _ (net : ByteOrder) (P : PktMut) (L : IsPktMut P) where
  set_checksum-Gives :
      (b : P.Buffer) (f y : List ℕ) (v : ℕ)
      → Holds P L b f y
      → 20 ≤ length y
      → Gives P L (set P (λ chunk. Header.set_checksum net chunk v) b) f (splice y 10 (wire_u16 v))
  unfolding Header.set_checksum
  set_checksum-Gives b f y v at h =
      Laws.set-Gives P L b f y at _ (splice y 10 (wire_u16 v))
        (set_field_u16_ok net 10 y v (omega arith)) (length-splice y 10 (wire_u16 v) (omega arith))

  rewrite_checksum :
      (b : P.Buffer) (f y : List ℕ) (u v : ℕ)
      → Holds P L b f (splice y 10 (wire_u16 u))
      → 20 ≤ length y
      → Gives P L (set P (λ chunk. Header.set_checksum net chunk v) b) f (splice y 10 (wire_u16 v))
  rewrite_checksum b f y u v at h =
      let (c, e, (s, fr, bo)) =
        set_checksum-Gives b f (splice y 10 (wire_u16 u)) v at
          (omega (arith, length-splice y 10 (wire_u16 u) (omega arith))) in
      (c, e, (s, fr, bo ∙ splice-splice y 10 u v (omega arith)))

  calc_checksum-Holds :
      (b : P.Buffer) (f y : List ℕ) (v : ℕ)
      → Holds P L b f (splice y 10 (wire_u16 v))
      → All IsByte y
      → 20 ≤ stated_header_len y
      → stated_header_len y ≤ length y
      → IsU16 v
      → calc_checksum net P.pkt_buf.buf b ≡ ok (fold (around y 10 (stated_header_len y) + v))
  unfolding calc_checksum
  calc_checksum-Holds b f y v at bytes lo hi k =
      let hlen : ℕ = stated_header_len y in
      let z : List ℕ = splice y 10 (wire_u16 v) in
      let size : length z ≡ length y = length-splice y 10 (wire_u16 v) (omega arith) in
      let whole : hlen - 0 ≡ hlen = omega arith in
      let same : stated_header_len z ≡ hlen =
        ap (λ n. n % 16 * 4)
          (get_or-splice-Apart y 10 (wire_u16 v) 0 (omega arith) (inl (omega arith))) in
      rw
        (
          header_len-Holds net P L b f z at (omega arith),
          same,
          Laws.chunk-Holds P L b f z at,
          slice_ok z 0 hlen (omega arith) (omega arith),
        )
        (ap (λ n. from_slice net (take n z)) whole
          ∙ from_slice-fold net (take hlen z)
              (bytes-splice y 10 hlen v (omega arith) (omega arith) hi bytes)
              (omega (arith, length-take hlen z))
          ∙ ap (λ n. ok (fold n)) (word_sum-splice y 10 hlen v (omega arith) (omega arith) hi k))

  -- On a sound buffer whose bytes `y` state a header length of at least 20 and are as many,
  -- `adjust_checksum` returns; `verify_checksum` of the result is true, its bytes differ from `y` only
  -- in the checksum field, and its headroom is as it was.
  pub verify_checksum-adjust_checksum :
      (b : P.Buffer) (f y : List ℕ)
      → Holds P L b f y
      → All IsByte y
      → 20 ≤ stated_header_len y
      → stated_header_len y ≤ length y
      → (c : P.Buffer) × (adjust_checksum net P b ≡ ok c)
        × (verify_checksum net P.pkt_buf.buf c ≡ ok true)
        × ((v : ℕ) × Holds P L c f (splice y 10 (wire_u16 v)))
  unfolding adjust_checksum verify_checksum
  verify_checksum-adjust_checksum b f y at bytes lo hi =
      let hlen : ℕ = stated_header_len y in
      let others : ℕ = around y 10 hlen in
      let sum : ℕ = fold (others + 0) in
      let new : ℕ = not_u16 sum in
      let zeroed : List ℕ = splice y 10 (wire_u16 0) in
      let (d, e, hd) = set_checksum-Gives b f y 0 at (omega arith) in
      let (c, e', hc) = rewrite_checksum d f y 0 new hd (omega arith) in
      let total : fold (others + new) ≡ 0xffff =
        ap fold (omega arith) ∙ fold_complement (others + 0) in
      (
        c,
        ok_then _ d e (ok_then _ sum (calc_checksum-Holds d f y 0 hd bytes lo hi (omega arith)) e'),
        ok_then _ 0xffff (calc_checksum-Holds c f y new hc bytes lo hi (omega arith) ∙ ap ok total)
            refl,
        (new, hc),
      )

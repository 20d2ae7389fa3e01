-- ===== src/Packet/Adjust.antt =====
-- How the packet types fill in a checksum field: it is set to zero, the checksum is taken, and its
-- complement is written.
use rpkt.Base.{ℕ, ◌+◌, ◌-◌, ◌≤◌, List, length, Outcome, ok, ◌>>=◌, ◌≡◌, ap, ◌∙◌, arith}
use rpkt.Extern.{ByteOrder, IsU16}
use rpkt.Wire.{splice, set_field_u16}
use rpkt.Wire.Laws.{set_field_u16_ok, length-splice}
use rpkt.Wire.Fields.{wire_u16}
use rpkt.Traits.{PktMut, IsPktMut}
use rpkt.Packet.{set}
use rpkt.Packet.Laws
use rpkt.Packet.Laws.{Holds, Gives, ok_then}
use rpkt.Checksum.Spec.{fold}
use rpkt.Checksum.Field.{splice-splice}

module _ (net : ByteOrder) (P : PktMut) (L : IsPktMut P) (at : ℕ) where
  abbrev pub write_field : ℕ → P.Buffer → Outcome P.Buffer
  write_field v b = set P (λ chunk. set_field_u16 net at (at + 2) chunk v) b

  pub write_field-Gives :
      (b : P.Buffer) (f y : List ℕ) (v : ℕ)
      → Holds P L b f y
      → at + 2 ≤ length y
      → Gives P L (write_field v b) f (splice y at (wire_u16 v))
  write_field-Gives b f y v h k =
      Laws.set-Gives P L b f y h _ (splice y at (wire_u16 v)) (set_field_u16_ok net at y v k)
        (length-splice y at (wire_u16 v) k)

  rewrite_field-Gives :
      (b : P.Buffer) (f y : List ℕ) (u v : ℕ)
      → Holds P L b f (splice y at (wire_u16 u))
      → at + 2 ≤ length y
      → Gives P L (write_field v b) f (splice y at (wire_u16 v))
  rewrite_field-Gives b f y u v h k =
      let (c, e, (s, fr, bo)) =
        write_field-Gives b f (splice y at (wire_u16 u)) v h
          (omega (arith, length-splice y at (wire_u16 u) k)) in
      (c, e, (s, fr, bo ∙ splice-splice y at u v k))

  -- `summed` takes the checksum: the sum is `others` and the field.
  module _ (f y : List ℕ) (others : ℕ) (k : at + 2 ≤ length y)
      (summed : P.Buffer → Outcome (ℕ × P.Buffer))
      (summed-Holds : (b : P.Buffer) (v : ℕ)
        → IsU16 v
        → Holds P L b f (splice y at (wire_u16 v))
        → (c : P.Buffer) × (summed b ≡ ok (fold (others + v), c))
          × Holds P L c f (splice y at (wire_u16 v)))
      (completes : ℕ → ℕ) where
    pub adjust-Gives :
        (b : P.Buffer)
        → Holds P L b f y
        → Gives P L
            (write_field 0 b >>= λ zeroed.
              summed zeroed >>= λ s. write_field (completes (0xffff - s.0)) s.1)
            f
            (splice y at (wire_u16 (completes (0xffff - fold others))))
    adjust-Gives b h =
        let (z, e, hz) = write_field-Gives b f y 0 h k in
        let (d, e', hd) = summed-Holds z 0 (omega arith) hz in
        let same : fold (others + 0) ≡ fold others = ap fold (omega arith) in
        let (c, e'', hc) = rewrite_field-Gives d f y 0 (completes (0xffff - fold others)) hd k in
        (
          c,
          ok_then _ z e (
              ok_then _ (fold (others + 0), d) e'
                (ap (λ n. write_field (completes (0xffff - n)) d) same ∙ e'')),
          hc,
        )

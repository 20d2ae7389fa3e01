-- ===== src/Wire/Fill.antt =====
-- A buffer that is filled from the front: after `k` bytes it is those bytes and the rest of the
-- original, and a write at `k` extends them.
use rpkt.Base.{ℕ, ◌+◌, ◌≤◌, List, [], ◌∷◌, ◌++◌, ◌≡◌, ap, sym, ◌∙◌}
use rpkt.Base.{ok, length, drop, arith, append_assoc, length-append, length-drop}
use rpkt.Base.{take_prefix, drop_prefix, drop-drop}
use rpkt.Extern.{ByteOrder}
use rpkt.Wire.{splice, set_byte, set_field_u16, set_field_u32, set_range, slice_to, slice_from}
use rpkt.Wire.Laws.{
  set_byte_ok, set_field_u16_ok, set_field_u32_ok, set_range_ok, slice_to_ok, slice_from_ok,
}
use rpkt.Wire.Fields.{wire_u16, wire_u32}

abbrev pub filled : List ℕ → ℕ → List ℕ → List ℕ
filled front k buf = front ++ drop k buf

module _ (buf front : List ℕ) (k : ℕ) (e : length front ≡ k) where
  pub length-filled : k ≤ length buf → length (filled front k buf) ≡ length buf
  length-filled h = omega (arith, length-append front (drop k buf), length-drop k buf)

  drop-filled : (m : ℕ) → drop (k + m) (filled front k buf) ≡ drop (k + m) buf
  drop-filled m =
      sym (drop-drop k m (filled front k buf))
      ∙ ap (drop m) (drop_prefix k front (drop k buf) e)
      ∙ drop-drop k m buf

  splice-filled :
      (bytes : List ℕ)
      → splice (filled front k buf) k bytes ≡ filled (front ++ bytes) (k + length bytes) buf
  unfolding splice
  splice-filled bytes =
      rw (take_prefix k front (drop k buf) e, drop-filled (length bytes))
        (sym (append_assoc front bytes (drop (k + length bytes) buf)))

  pub set_byte_fills :
      (v : ℕ)
      → k + 1 ≤ length buf
      → set_byte (filled front k buf) k v ≡ ok (filled (front ++ (v ∷ [])) (k + 1) buf)
  set_byte_fills v h =
      set_byte_ok (filled front k buf) k v (omega (arith, length-filled (omega arith)))
      ∙ ap ok (splice-filled (v ∷ []))

  pub set_range_fills :
      (right : ℕ) (src : List ℕ)
      → k + length src ≡ right
      → right ≤ length buf
      → set_range (filled front k buf) k right src ≡ ok (filled (front ++ src) right buf)
  set_range_fills right src f h =
      set_range_ok (filled front k buf) k right src f (omega (arith, length-filled (omega arith)))
      ∙ ap ok (splice-filled src ∙ ap (λ n. filled (front ++ src) n buf) f)

  -- The bytes written are split off.
  pub slice_to-filled : k ≤ length buf → slice_to (filled front k buf) k ≡ ok front
  slice_to-filled h =
      slice_to_ok (filled front k buf) k (omega (arith, length-filled h))
      ∙ ap ok (take_prefix k front (drop k buf) e)

  pub slice_from-filled : k ≤ length buf → slice_from (filled front k buf) k ≡ ok (drop k buf)
  slice_from-filled h =
      slice_from_ok (filled front k buf) k (omega (arith, length-filled h))
      ∙ ap ok (drop_prefix k front (drop k buf) e)

  module _ (net : ByteOrder) where
    pub set_field_u16_fills :
        (v : ℕ)
        → k + 2 ≤ length buf
        → set_field_u16 net k (k + 2) (filled front k buf) v
          ≡ ok (filled (front ++ wire_u16 v) (k + 2) buf)
    set_field_u16_fills v h =
        set_field_u16_ok net k (filled front k buf) v (omega (arith, length-filled (omega arith)))
        ∙ ap ok (splice-filled (wire_u16 v))

    pub set_field_u32_fills :
        (v : ℕ)
        → k + 4 ≤ length buf
        → set_field_u32 net k (k + 4) (filled front k buf) v
          ≡ ok (filled (front ++ wire_u32 v) (k + 4) buf)
    set_field_u32_fills v h =
        set_field_u32_ok net k (filled front k buf) v (omega (arith, length-filled (omega arith)))
        ∙ ap ok (splice-filled (wire_u32 v))

-- ===== src/Packet/Fixed.antt =====
-- Packets with a header of one length: how `prepend_header` and `parse` treat it.
use rpkt.Base.{ℕ, ◌-◌, ◌≤◌, List, ◌++◌, Outcome, ◌>>=◌, ◌>>◌, assert, ◌≡◌, ap, ◌∙◌, arith}
use rpkt.Base.{
  length, take, drop, leb, le→leb, length-append, length-take, length-drop, drop_prefix,
}
use rpkt.Wire.{slice}
use rpkt.Wire.Laws.{slice_ok}
use rpkt.Traits.{PktMut, IsPktMut}
use rpkt.Packet.{put_header}
use rpkt.Packet.Laws
use rpkt.Packet.Laws.{Holds, Gives, Gives-then}

module _ (P : PktMut) (hlen : ℕ) where
  -- `move_back` by the header, `chunk_mut()[0..hlen].copy_from_slice(header.as_bytes())`.
  pub push_header : P.Buffer → List ℕ → Outcome P.Buffer
  push_header buf header = do
    moved ← P.move_back buf hlen
    bytes ← slice header 0 hlen
    put_header P hlen bytes moved

  -- The same behind `assert!(buf.chunk_headroom() >= hlen)`.
  pub push_header_checked : P.Buffer → List ℕ → Outcome P.Buffer
  push_header_checked buf header = do
    assert (leb hlen (P.chunk_headroom buf))
    push_header buf header

module _ (P : PktMut) (L : IsPktMut P) (hlen : ℕ) (b : P.Buffer) (f y header : List ℕ)
    (at : Holds P L b f y) (h : hlen ≤ length header) (room : hlen ≤ length f) where
  pub push_header-Gives :
      Gives P L (push_header P hlen b header) (take (length f - hlen) f) (take hlen header ++ y)
  unfolding push_header
  push_header-Gives =
      let gap : List ℕ = drop (length f - hlen) f in
      let size : length gap ≡ hlen = omega (arith, length-drop (length f - hlen) f) in
      let part : take (hlen - 0) header ≡ take hlen header =
        ap (λ n. take n header) (omega arith) in
      rw (slice_ok header 0 hlen (omega arith) h, part)
        (Gives-then P L (Laws.move_back-Gives P L b f y at hlen room) (λ c hc.
          let (d, e, (s, fr, bo)) =
            Laws.put_header-Gives P L c _ (gap ++ y) hlen (take hlen header) hc
              (omega (arith, length-take hlen header)) (omega (arith, length-append gap y)) in
          (d, e, (s, fr, bo ∙ ap (λ z. take hlen header ++ z) (drop_prefix hlen gap y size)))))

  pub push_header_checked-Gives :
      Gives P L
        (push_header_checked P hlen b header)
        (take (length f - hlen) f)
        (take hlen header ++ y)
  unfolding push_header_checked
  push_header_checked-Gives =
      rw (Laws.headroom-Holds P L b f y at, le→leb hlen (length f) room) push_header-Gives

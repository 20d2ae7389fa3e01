-- ===== src/Tcp/Prepend.antt =====
-- `TcpPacket::prepend_header`, over a buffer that keeps the contract of `PktMut`.
use rpkt.Base.{
  ℕ, ◌+◌, ◌-◌, ◌*◌, ◌/◌, ◌%◌, ◌≤◌, ◌<◌, ◌^◌, List, ◌++◌, ok, ◌≡◌, refl, sym, ap, ap₂, ◌∙◌, arith,
}
use rpkt.Base.{length, take, drop, get_or, le→leb, inl, length-append, length-take, length-drop}
use rpkt.Base.{drop_prefix, take_prefix, drop-append_le, append_assoc}
use rpkt.Extern.{ByteOrder}
use rpkt.Wire.Laws.{slice_ok, get_or-take, get_or-append}
use rpkt.Traits.{PktMut, IsPktMut}
use rpkt.Packet.Laws
use rpkt.Packet.Laws.{Holds, Gives, Gives-then}
use rpkt.Tcp.Header
use rpkt.Tcp.Packet.{parse, payload, option_bytes, prepend_header}
use rpkt.Tcp.Exchange.{
  stated_header_len, HasSegment, header_len_ok, parse-accepts, payload-Gives, option_bytes_ok,
}

abbrev pub segment : List ℕ → List ℕ → List ℕ → List ℕ
segment header options y = take 20 header ++ (options ++ y)

module _ (header options y : List ℕ) (h : 20 ≤ length header)
    (e : stated_header_len header ≡ 20 + length options) where
  twenty : length (take 20 header) ≡ 20
  twenty = omega (arith, length-take 20 header)

  first_bytes : (j : ℕ) (z : List ℕ) → j < 20 → get_or (take 20 header ++ z) j 0 ≡ get_or header j 0
  first_bytes j z k =
      ground (arith, twenty, get_or-append (take 20 header) z j, get_or-take 20 j header)

  stated_header_len-segment : stated_header_len (segment header options y) ≡ 20 + length options
  stated_header_len-segment =
      ap₂ (λ a b. (a * 256 + b) / 2 ^ 12 % 16 * 4) (first_bytes 12 (options ++ y) (omega arith))
        (first_bytes 13 (options ++ y) (omega arith))
      ∙ e

  length-segment : length (segment header options y) ≡ 20 + length options + length y
  length-segment =
      omega (arith, length-append (take 20 header) (options ++ y), twenty, length-append options y)

  segment-HasSegment : HasSegment (segment header options y)
  segment-HasSegment = omega (arith, stated_header_len-segment, length-segment)

  options-segment :
      take (stated_header_len (segment header options y) - 20) (drop 20 (segment header options y))
      ≡ options
  options-segment =
      ap₂ take (omega (arith, stated_header_len-segment))
        (drop_prefix 20 (take 20 header) (options ++ y) twenty)
      ∙ take_prefix (length options) options y refl

  drop-segment : drop (stated_header_len (segment header options y)) (segment header options y) ≡ y
  drop-segment =
      ap₂ drop stated_header_len-segment (sym (append_assoc (take 20 header) options y))
      ∙ drop_prefix (20 + length options) (take 20 header ++ options) y
          (omega (arith, length-append (take 20 header) options, twenty))

module _ (net : ByteOrder) (P : PktMut) (L : IsPktMut P) (b : P.Buffer) (f y : List ℕ)
    (at : Holds P L b f y) where
  -- The headroom bytes that become the options of a header of length `hlen`.
  abbrev options_in : ℕ → List ℕ
  options_in hlen = drop 20 (drop (length f - hlen) f)

  prepend_header-Gives :
      (header : List ℕ)
      → let hlen = stated_header_len header in
        20 ≤ length header
        → 20 ≤ hlen
        → hlen ≤ length f
        → Gives P L
            (prepend_header net P b header)
            (take (length f - hlen) f)
            (segment header (options_in hlen) y)
  unfolding prepend_header Header.as_bytes
  prepend_header-Gives header h lo room =
      let hlen : ℕ = stated_header_len header in
      let gap : List ℕ = drop (length f - hlen) f in
      let size : length gap ≡ hlen = omega (arith, length-drop (length f - hlen) f) in
      rw
        (
          header_len_ok net header h,
          Laws.headroom-Holds P L b f y at,
          le→leb 20 hlen lo,
          le→leb hlen (length f) room,
          slice_ok header 0 20 (omega arith) h,
        )
        (Gives-then P L (Laws.move_back-Gives P L b f y at hlen room) (λ c hc.
          let (d, e, (s, fr, bo)) =
            Laws.put_header-Gives P L c _ (gap ++ y) 20 (take 20 header) hc
              (omega (arith, length-take 20 header)) (omega (arith, length-append gap y)) in
          (
            d,
            e,
            (s, fr, bo ∙ ap (λ z. take 20 header ++ z) (drop-append_le 20 gap y (omega arith))),
          )))

  -- On a sound buffer that holds `y` after the headroom `f`, with a header of at least 20 bytes that
  -- states a header length from 20 up to the headroom, `prepend_header` returns a packet: its bytes
  -- are the first 20 of the header, the headroom bytes behind them, and `y`; the rest of the headroom
  -- is as it was. `parse` accepts the packet, its `option_bytes` are those headroom bytes, and its
  -- `payload` holds `y`.
  pub payload-prepend_header_tcp :
      (header : List ℕ)
      → let hlen = stated_header_len header in
        20 ≤ length header
        → 20 ≤ hlen
        → hlen ≤ length f
        → (p : P.Buffer) × (prepend_header net P b header ≡ ok p)
          × Holds P L p (take (length f - hlen) f) (segment header (options_in hlen) y)
          × (parse net P.pkt_buf.buf p ≡ ok (inl p))
          × (option_bytes net P.pkt_buf.buf p ≡ ok (options_in hlen))
          × ((q : P.Buffer) × (payload net P.pkt_buf.buf p ≡ ok q) × L.IsSound q × (L.body q ≡ y))
  payload-prepend_header_tcp header h lo room =
      let hlen : ℕ = stated_header_len header in
      let options : List ℕ = options_in hlen in
      let e : hlen ≡ 20 + length options =
        omega (arith, length-drop 20 (drop (length f - hlen) f), length-drop (length f - hlen) f) in
      let (p, goes, hp) = prepend_header-Gives header h lo room in
      let valid : HasSegment (segment header options y) = segment-HasSegment header options y h e in
      let (q, goes', (s, fr, bo)) = payload-Gives net P L p _ (segment header options y) hp valid in
      (
        p,
        goes,
        hp,
        parse-accepts net P L p _ (segment header options y) hp valid,
        option_bytes_ok net P L p _ (segment header options y) hp valid
            ∙ ap ok (options-segment header options y h e),
        (q, goes', s, bo ∙ drop-segment header options y h e),
      )

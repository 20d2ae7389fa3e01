-- ===== src/Views/Ipv4.antt =====
-- rpkt/src/ipv4/packet.rs: `Ipv4Packet` over `Cursor` and `CursorMut`.
use rpkt.Base.{ℕ, List, Outcome, ok, ◌>>=◌}
use rpkt.Extern.{ByteOrder}
use rpkt.Wire.{slice, slice_to, slice_from}
use rpkt.Cursors.{Cursor, chunk}
use rpkt.Cursors.Contract.{cursor_mut}
use rpkt.Views.{sub_cursor, split_cursor}
use rpkt.Ipv4.Header.{ipv4_header_len}
use rpkt.Ipv4.Packet.{header_len, packet_len}

module _ (net : ByteOrder) where
  unfoldable pub cursor_header : Cursor → Outcome (List ℕ)
  cursor_header c = slice_to (chunk c) ipv4_header_len

  unfoldable pub cursor_options : Cursor → Outcome (List ℕ)
  cursor_options c =
      header_len net cursor_mut.pkt_buf.buf c >>= λ hlen. slice (chunk c) ipv4_header_len hlen

  unfoldable pub cursor_payload : Cursor → Outcome Cursor
  cursor_payload c = do
    hlen ← header_len net cursor_mut.pkt_buf.buf c
    len ← packet_len net cursor_mut.pkt_buf.buf c
    sub_cursor c hlen len

  unfoldable pub split : Cursor → Outcome (List ℕ × List ℕ × Cursor)
  split c = do
    hlen ← header_len net cursor_mut.pkt_buf.buf c
    len ← packet_len net cursor_mut.pkt_buf.buf c
    buf_mut ← slice_to (chunk c) len
    (front, payload) ← split_cursor c buf_mut hlen
    hdr ← slice_to front ipv4_header_len
    option ← slice_from front ipv4_header_len
    ok (hdr, option, payload)

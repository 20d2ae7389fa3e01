-- ===== src/Views/Tcp.antt =====
-- rpkt/src/tcp/packet.rs: `TcpPacket` over `Cursor` and `CursorMut`.
use rpkt.Base.{ℕ, List, Outcome, ok, ◌>>=◌}
use rpkt.Extern.{ByteOrder}
use rpkt.Wire.{slice, slice_to, slice_from}
use rpkt.Cursors.{Cursor, chunk}
use rpkt.Cursors.Contract.{cursor_mut}
use rpkt.Views.{sub_cursor_from, split_cursor}
use rpkt.Tcp.Header.{tcp_header_len}
use rpkt.Tcp.Packet.{header_len}

module _ (net : ByteOrder) where
  unfoldable pub cursor_header : Cursor → Outcome (List ℕ)
  cursor_header c = slice_to (chunk c) tcp_header_len

  unfoldable pub cursor_options : Cursor → Outcome (List ℕ)
  cursor_options c =
      header_len net cursor_mut.pkt_buf.buf c >>= λ hlen. slice (chunk c) tcp_header_len hlen

  unfoldable pub cursor_payload : Cursor → Outcome Cursor
  cursor_payload c = header_len net cursor_mut.pkt_buf.buf c >>= λ hlen. sub_cursor_from c hlen

  unfoldable pub split : Cursor → Outcome (List ℕ × List ℕ × Cursor)
  split c = do
    hlen ← header_len net cursor_mut.pkt_buf.buf c
    (front, payload) ← split_cursor c (chunk c) hlen
    hdr ← slice_to front tcp_header_len
    options ← slice_from front tcp_header_len
    ok (hdr, options, payload)

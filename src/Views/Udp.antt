-- ===== src/Views/Udp.antt =====
-- rpkt/src/udp/packet.rs: `UdpPacket` over `Cursor` and `CursorMut`.
use rpkt.Base.{ℕ, List, Outcome, ◌>>=◌}
use rpkt.Extern.{ByteOrder}
use rpkt.Wire.{slice_to}
use rpkt.Cursors.{Cursor, chunk}
use rpkt.Cursors.Contract.{cursor_mut}
use rpkt.Views.{sub_cursor, split_cursor}
use rpkt.Udp.Header.{udp_header_len}
use rpkt.Udp.Packet.{packet_len}

module _ (net : ByteOrder) where
  unfoldable pub cursor_header : Cursor → Outcome (List ℕ)
  cursor_header c = slice_to (chunk c) udp_header_len

  unfoldable pub cursor_payload : Cursor → Outcome Cursor
  cursor_payload c =
      packet_len net cursor_mut.pkt_buf.buf c >>= λ len. sub_cursor c udp_header_len len

  unfoldable pub split : Cursor → Outcome (List ℕ × Cursor)
  split c = do
    len ← packet_len net cursor_mut.pkt_buf.buf c
    buf_mut ← slice_to (chunk c) len
    split_cursor c buf_mut udp_header_len

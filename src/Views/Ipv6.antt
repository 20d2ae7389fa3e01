-- ===== src/Views/Ipv6.antt =====
-- rpkt/src/ipv6/packet.rs: `Ipv6Packet` over `Cursor` and `CursorMut`.
use rpkt.Base.{ℕ, ◌+◌, List, Outcome, ◌>>=◌}
use rpkt.Extern.{ByteOrder}
use rpkt.Wire.{slice_to}
use rpkt.Cursors.{Cursor, chunk}
use rpkt.Cursors.Contract.{cursor_mut}
use rpkt.Views.{sub_cursor, split_cursor}
use rpkt.Ipv6.Header.{ipv6_header_len}
use rpkt.Ipv6.Packet.{payload_len}

module _ (net : ByteOrder) where
  unfoldable pub cursor_header : Cursor → Outcome (List ℕ)
  cursor_header c = slice_to (chunk c) ipv6_header_len

  unfoldable pub cursor_payload : Cursor → Outcome Cursor
  cursor_payload c = payload_len net cursor_mut.pkt_buf.buf c >>= λ len.
      sub_cursor c ipv6_header_len (ipv6_header_len + len)

  unfoldable pub split : Cursor → Outcome (List ℕ × Cursor)
  split c = do
    len ← payload_len net cursor_mut.pkt_buf.buf c
    buf_mut ← slice_to (chunk c) (len + ipv6_header_len)
    split_cursor c buf_mut ipv6_header_len

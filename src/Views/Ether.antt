-- ===== src/Views/Ether.antt =====
-- rpkt/src/ether/packet.rs: `EtherPacket` over `Cursor` and `CursorMut`.
use rpkt.Base.{ℕ, List, Outcome}
use rpkt.Wire.{slice_to}
use rpkt.Cursors.{Cursor, chunk}
use rpkt.Views.{sub_cursor_from, split_cursor}
use rpkt.Ether.Header.{ether_header_len}

unfoldable pub cursor_header : Cursor → Outcome (List ℕ)
cursor_header c = slice_to (chunk c) ether_header_len

unfoldable pub cursor_payload : Cursor → Outcome Cursor
cursor_payload c = sub_cursor_from c ether_header_len

unfoldable pub split : Cursor → Outcome (List ℕ × Cursor)
split c = split_cursor c (chunk c) ether_header_len

-- ===== src/Views/Frag.antt =====
-- rpkt/src/ipv6/extentions/frag.rs: `FragPacket` over `Cursor` and `CursorMut`.
use rpkt.Base.{ℕ, List, Outcome}
use rpkt.Wire.{slice_to}
use rpkt.Cursors.{Cursor, chunk}
use rpkt.Views.{sub_cursor_from, split_cursor}
use rpkt.Ipv6.Frag.{frag_header_len}

unfoldable pub cursor_header : Cursor → Outcome (List ℕ)
cursor_header c = slice_to (chunk c) frag_header_len

unfoldable pub cursor_payload : Cursor → Outcome Cursor
cursor_payload c = sub_cursor_from c frag_header_len

unfoldable pub split : Cursor → Outcome (List ℕ × Cursor)
split c = split_cursor c (chunk c) frag_header_len

-- ===== src/Examples/Views.antt =====
-- The packet types over a `CursorMut`.
use rpkt.Base.{[], ◌∷◌, arith}
use rpkt.Cursors.{Cursor, IsValid}
use rpkt.Cursors.Contract.{behind}
use rpkt.Views.Agree.{Agrees, cursor_payload-payload}
use rpkt.Examples.Crates.{network_endian}

-- A UDP datagram of ten bytes, with two bytes of headroom, in a frame of twelve.
abbrev incoming : Cursor
incoming = behind (1 ∷ 2 ∷ []) (0 ∷ 53 ∷ 0 ∷ 99 ∷ 0 ∷ 10 ∷ 0 ∷ 0 ∷ 7 ∷ 8 ∷ 0 ∷ 0 ∷ [])

incoming-IsValid : IsValid incoming
incoming-IsValid = omega arith

cursor_payload-payload_example : Agrees network_endian incoming
cursor_payload-payload_example = cursor_payload-payload network_endian incoming incoming-IsValid

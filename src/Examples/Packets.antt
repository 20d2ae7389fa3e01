-- ===== src/Examples/Packets.antt =====
-- Packets in a `CursorMut`.
use rpkt.Base.{ℕ, List, [], ◌∷◌, replicate, arith}
use rpkt.Cursors.{Cursor}
use rpkt.Cursors.Contract.{cursor_mut, cursor_mut-IsPktMut, behind, behind_holds}
use rpkt.Packet.Laws.{Holds}

-- Sixty-four bytes of headroom and a message of three bytes.
abbrev pub room : List ℕ
room = replicate 64 0

abbrev pub message : List ℕ
message = 0x41 ∷ 0x42 ∷ 0x43 ∷ []

abbrev pub outgoing : Cursor
outgoing = behind room message

pub outgoing-Holds : Holds cursor_mut cursor_mut-IsPktMut outgoing room message
outgoing-Holds = behind_holds room message (omega arith)

-- ===== src/Views.antt =====
-- rpkt/src/cursors.rs: parts of the bytes of a cursor, as the packet types over `Cursor` and
-- `CursorMut` take them in `cursor_payload` and `split`: `Cursor::new` of a range of
-- `chunk_shared_lifetime()`.
pub mod Laws
pub mod Agree
pub mod Ether
pub mod Frag
pub mod Udp
pub mod Tcp
pub mod Ipv4
pub mod Ipv6
use rpkt.Base.{ℕ, ◌+◌, List, Outcome, ok, ◌>>=◌, length}
use rpkt.Wire.{slice, slice_from, slice_to}
use rpkt.Cursors.{Cursor, new, chunk}

-- `Cursor::new(&chunk[left..right])` and `Cursor::new(&chunk[left..])`: a slice starts at its offset.
unfoldable pub sub_cursor : Cursor → ℕ → ℕ → Outcome Cursor
sub_cursor c left right =
    slice (chunk c) left right >>= λ bytes. ok (new c.memory (c.chunk_ptr + left) (length bytes))

unfoldable pub sub_cursor_from : Cursor → ℕ → Outcome Cursor
sub_cursor_from c left =
    slice_from (chunk c) left >>= λ bytes. ok (new c.memory (c.chunk_ptr + left) (length bytes))

-- `split_at_mut(mid)` of the first bytes of the chunk: the bytes in front, and a cursor over the others.
unfoldable pub split_cursor : Cursor → List ℕ → ℕ → Outcome (List ℕ × Cursor)
split_cursor c bytes mid = do
  front ← slice_to bytes mid
  behind ← slice_from bytes mid
  ok (front, new c.memory (c.chunk_ptr + mid) (length behind))

-- ===== src/Cursors.antt =====
-- rpkt/src/cursors.rs: `Cursor` and `CursorMut`, a position in a slice kept by raw pointers.
-- `memory` is the allocation that the pointers point into, and a pointer is an index of it, so that
-- the unsafe `from_raw_parts(ptr, len)` reads the bytes from `ptr` up to `ptr + len`.
pub mod Laws
pub mod Contract
pub mod Old
use rpkt.Base.{ℕ, ◌+◌, ◌-◌, ◌%◌, ◌^◌, ◌≤◌, leb, if◌then◌else◌, List, ◌++◌}
use rpkt.Wire.{splice}
use rpkt.Base.{Outcome, ok, panic, length, take, drop}

pub record Cursor : Type 0 where
  pub memory : List ℕ
  pub chunk_ptr : ℕ
  pub chunk_len : ℕ
  pub start_addr : ℕ

-- The pointers are ordered and stay inside the allocation.
pub record IsValid (c : Cursor) : Type 0 where
  pub start_in : c.start_addr ≤ c.chunk_ptr
  pub end_in : c.chunk_ptr + c.chunk_len ≤ length c.memory
  pub allocation : length c.memory ≤ 2 ^ 63

pub raw_parts : List ℕ → ℕ → ℕ → List ℕ
raw_parts memory ptr len = take len (drop ptr memory)

-- `Cursor::new(buf)`, where `buf` is the slice of `len` bytes at `ptr`.
pub new : List ℕ → ℕ → ℕ → Cursor
new memory ptr len = record { memory = memory; chunk_ptr = ptr; chunk_len = len; start_addr = ptr }

-- `offset_from` as usize
pub cursor : Cursor → ℕ
cursor c = (c.chunk_ptr + 2 ^ 64 - c.start_addr) % 2 ^ 64

pub buf : Cursor → List ℕ
buf c = raw_parts c.memory c.start_addr (cursor c + c.chunk_len)

unfoldable pub remaining : Cursor → ℕ
remaining c = c.chunk_len

pub chunk : Cursor → List ℕ
chunk c = raw_parts c.memory c.chunk_ptr c.chunk_len

unfoldable pub advance : Cursor → ℕ → Outcome Cursor
advance c cnt =
    if leb cnt c.chunk_len
    then ok (record c { chunk_ptr = c.chunk_ptr + cnt; chunk_len = c.chunk_len - cnt })
    else panic

pub move_back : Cursor → ℕ → Outcome Cursor
move_back c cnt =
    if leb cnt (cursor c)
    then ok (record c { chunk_ptr = c.chunk_ptr - cnt; chunk_len = c.chunk_len + cnt })
    else panic

unfoldable pub trim_off : Cursor → ℕ → Outcome Cursor
trim_off c cnt =
    if leb cnt (remaining c) then ok (record c { chunk_len = c.chunk_len - cnt }) else panic

-- `CursorMut`: the bytes of the chunk are written in place.
pub put_chunk : Cursor → List ℕ → Cursor
put_chunk c bytes = record c { memory = splice c.memory c.chunk_ptr bytes }

pub chunk_headroom : Cursor → ℕ
chunk_headroom c = cursor c
